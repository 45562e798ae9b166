-- ===== src/Store/Tables/Blobs.antt =====
-- The table blobs: keys are unique, and the bytes and reference counts follow each statement.
use tmpmail_fyi.Common.{
  if◌then◌else◌, Bool-cases, All, Bytes, eq_bytes, eq_bytes_iff, ℕ, ◌+◌, ◌-◌, ◌<◌, ◌≡◌, refl, ap,
  inl, inr, false, none, some, List, [], ◌∷◌, arith,
}
use tmpmail_fyi.Store.State.{Blob}
use tmpmail_fyi.Store.Tables.{find_blob, delete_blob, release_blob, blob_bytes}

abbrev pub UniqueBlobs : List Blob → Type 0
UniqueBlobs [] = Unit {0}
UniqueBlobs (b ∷ blobs) = (find_blob b.id blobs ≡ none) × UniqueBlobs blobs

abbrev pub IsHeld : Blob → Type 0
IsHeld b = 0 < b.ref_count

-- The recorded reference count of a blob, or none at all.
unfoldable pub recorded_refs : Bytes → List Blob → ℕ
recorded_refs k [] = 0
recorded_refs k (b ∷ blobs) = if eq_bytes b.id k then b.ref_count else recorded_refs k blobs

pub find_blob-id :
    (key : Bytes) (b : Blob) (blobs : List Blob) → find_blob key blobs ≡ some b → b.id ≡ key
unfolding find_blob
find_blob-id key b [] h = cc
find_blob-id key b (x ∷ blobs) h = ground (arith, eq_bytes_iff x.id key, find_blob-id key b blobs)

pub recorded_refs_of_find :
    (key : Bytes) (b : Blob) (blobs : List Blob)
    → find_blob key blobs ≡ some b
    → recorded_refs key blobs ≡ b.ref_count
unfolding find_blob recorded_refs
recorded_refs_of_find key b [] h = cc
recorded_refs_of_find key b (x ∷ blobs) h = ground (arith, recorded_refs_of_find key b blobs)

pub find_blob_of_recorded :
    (key : Bytes) (blobs : List Blob)
    → 0 < recorded_refs key blobs
    → (b : Blob) × (find_blob key blobs ≡ some b)
unfolding find_blob recorded_refs
find_blob_of_recorded key [] h = absurd (omega arith)
find_blob_of_recorded key (x ∷ blobs) h = elim (Bool-cases (eq_bytes x.id key)) [
  | inl e ↦ (x, rw e refl)
  | inr e ↦ rw e (find_blob_of_recorded key blobs (rw e at h))
]

pub recorded_refs-absent :
    (key : Bytes) (blobs : List Blob) → find_blob key blobs ≡ none → recorded_refs key blobs ≡ 0
unfolding find_blob recorded_refs
recorded_refs-absent key [] h = refl
recorded_refs-absent key (x ∷ blobs) h = ground (arith, recorded_refs-absent key blobs)

module _ (key : Bytes) where
  pub find_blob-delete_blob :
      (k : Bytes) (blobs : List Blob)
      → find_blob k (delete_blob key blobs) ≡ (if eq_bytes key k then none else find_blob k blobs)
  unfolding find_blob delete_blob
  find_blob-delete_blob k [] = ground arith
  find_blob-delete_blob k (b ∷ blobs) = ground (
    arith,
    find_blob-delete_blob k blobs,
    eq_bytes_iff b.id key,
    eq_bytes_iff b.id k,
    eq_bytes_iff key k,
  )

  pub recorded_refs-delete_blob :
      (k : Bytes) (blobs : List Blob)
      → recorded_refs k (delete_blob key blobs)
        ≡ (if eq_bytes key k then 0 else recorded_refs k blobs)
  unfolding recorded_refs delete_blob
  recorded_refs-delete_blob k [] = ground arith
  recorded_refs-delete_blob k (b ∷ blobs) = ground (
    arith,
    recorded_refs-delete_blob k blobs,
    eq_bytes_iff b.id key,
    eq_bytes_iff b.id k,
    eq_bytes_iff key k,
  )

  pub recorded_refs-release_blob :
      (k : Bytes) (blobs : List Blob)
      → recorded_refs k (release_blob key blobs)
        ≡ recorded_refs k blobs - (if eq_bytes key k then 1 else 0)
  unfolding recorded_refs release_blob
  recorded_refs-release_blob k [] = ground arith
  recorded_refs-release_blob k (b ∷ blobs) = ground (
    arith,
    recorded_refs-release_blob k blobs,
    eq_bytes_iff b.id key,
    eq_bytes_iff b.id k,
    eq_bytes_iff key k,
  )

  pub delete_blob_absent :
      (blobs : List Blob) → find_blob key blobs ≡ none → delete_blob key blobs ≡ blobs
  unfolding find_blob delete_blob
  delete_blob_absent [] h = refl
  delete_blob_absent (b ∷ blobs) h = ground (arith, delete_blob_absent blobs)

  pub blob_bytes-delete_blob :
      (b : Blob) (blobs : List Blob)
      → UniqueBlobs blobs
      → find_blob key blobs ≡ some b
      → blob_bytes blobs ≡ b.size + blob_bytes (delete_blob key blobs)
  unfolding find_blob delete_blob blob_bytes
  blob_bytes-delete_blob b [] u h = cc
  blob_bytes-delete_blob b (x ∷ blobs) (absent, u) h = elim (Bool-cases (eq_bytes x.id key)) [
    | inl e ↦
        let same : x.id ≡ key = (eq_bytes_iff x.id key).0 e in
        let rest : find_blob key blobs ≡ none = rw (← same) absent in
        ground (arith, delete_blob_absent blobs rest)
    | inr e ↦ ground (arith, blob_bytes-delete_blob b blobs u)
  ]

  pub blob_bytes-release_blob :
      (blobs : List Blob) → blob_bytes (release_blob key blobs) ≡ blob_bytes blobs
  unfolding release_blob blob_bytes
  blob_bytes-release_blob [] = refl
  blob_bytes-release_blob (b ∷ blobs) = ground (arith, blob_bytes-release_blob blobs)

  pub delete_blob-UniqueBlobs :
      (blobs : List Blob) → UniqueBlobs blobs → UniqueBlobs (delete_blob key blobs)
  unfolding delete_blob
  delete_blob-UniqueBlobs [] u = tt
  delete_blob-UniqueBlobs (b ∷ blobs) (absent, u) =
      ground (arith, delete_blob-UniqueBlobs blobs u, find_blob-delete_blob b.id blobs)

  find_blob-release_blob :
      (k : Bytes) (blobs : List Blob)
      → find_blob k blobs ≡ none
      → find_blob k (release_blob key blobs) ≡ none
  unfolding find_blob release_blob
  find_blob-release_blob k [] h = refl
  find_blob-release_blob k (b ∷ blobs) h = ground (arith, find_blob-release_blob k blobs)

  -- A blob that is found had its path before.
  pub find_blob-release_path :
      (k : Bytes) (c : Blob) (blobs : List Blob)
      → find_blob k (release_blob key blobs) ≡ some c
      → (b : Blob) × (find_blob k blobs ≡ some b) × (b.path ≡ c.path)
  unfolding find_blob release_blob
  find_blob-release_path k c [] h = cc
  find_blob-release_path k c (b ∷ blobs) h = elim (Bool-cases (eq_bytes b.id key)) [
    | inl e ↦ elim (Bool-cases (eq_bytes b.id k)) [
      | inl f ↦ (b, rw f refl, ap Blob.path (some_inj (rw (e, f) at h)))
      | inr f ↦ rw f (find_blob-release_path k c blobs (rw (e, f) at h))
    ]
    | inr e ↦ elim (Bool-cases (eq_bytes b.id k)) [
      | inl f ↦ (b, rw f refl, ap Blob.path (some_inj (rw (e, f) at h)))
      | inr f ↦ rw f (find_blob-release_path k c blobs (rw (e, f) at h))
    ]
  ]
    where
      some_inj : {x y : Blob} → some x ≡ some y → x ≡ y
      some_inj e = cc

  -- The other blobs are as before.
  pub find_blob-release_other :
      (k : Bytes) (blobs : List Blob)
      → eq_bytes key k ≡ false
      → find_blob k (release_blob key blobs) ≡ find_blob k blobs
  unfolding find_blob release_blob
  find_blob-release_other k [] h = refl
  find_blob-release_other k (b ∷ blobs) h =
      let rest = find_blob-release_other k blobs h in
      elim (Bool-cases (eq_bytes b.id key)) [
        | inl e ↦
            let same : b.id ≡ key = (eq_bytes_iff b.id key).0 e in
            let other : eq_bytes b.id k ≡ false = rw same h in rw (e, other) rest
        | inr e ↦ rw (e, rest) refl
      ]

  pub release_blob-UniqueBlobs :
      (blobs : List Blob) → UniqueBlobs blobs → UniqueBlobs (release_blob key blobs)
  unfolding release_blob
  release_blob-UniqueBlobs [] u = tt
  release_blob-UniqueBlobs (b ∷ blobs) (absent, u) =
      ground (arith, release_blob-UniqueBlobs blobs u, find_blob-release_blob b.id blobs)

  pub delete_blob-IsHeld :
      (blobs : List Blob) → All IsHeld blobs → All IsHeld (delete_blob key blobs)
  unfolding delete_blob
  delete_blob-IsHeld [] h = tt
  delete_blob-IsHeld (b ∷ blobs) (p, h) = ground (arith, delete_blob-IsHeld blobs h)

  release_blob_absent :
      (blobs : List Blob) → find_blob key blobs ≡ none → release_blob key blobs ≡ blobs
  unfolding find_blob release_blob
  release_blob_absent [] h = refl
  release_blob_absent (b ∷ blobs) h = ground (arith, release_blob_absent blobs)

  -- Unique keys make the count of the one blob decisive.
  pub release_blob-IsHeld :
      (b : Blob) (blobs : List Blob)
      → UniqueBlobs blobs
      → find_blob key blobs ≡ some b
      → 1 < b.ref_count
      → All IsHeld blobs
      → All IsHeld (release_blob key blobs)
  unfolding release_blob find_blob
  release_blob-IsHeld b [] u f n h = tt
  release_blob-IsHeld b (x ∷ blobs) (absent, u) f n (p, h) = elim (Bool-cases (eq_bytes x.id key)) [
    | inl e ↦
        let same : x.id ≡ key = (eq_bytes_iff x.id key).0 e in
        let rest : find_blob key blobs ≡ none = rw (← same) absent in
        ground (arith, release_blob_absent blobs rest)
    | inr e ↦ ground (arith, release_blob-IsHeld b blobs u)
  ]
