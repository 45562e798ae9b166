-- ===== src/Analytics/Tables/Oldest.antt =====
-- The rows that a full database gives up: the loop of maintain of internal/app/analytics.go.
use tmpmail_fyi.Common.{
  if◌then◌else◌, Bool-cases, length, take, drop, any, All, length-take, take-append-drop,
  All-append, All-drop, eq_bytes, eq_bytes_refl, ℕ, zero, suc, ◌≤◌, ◌≡◌, refl, subst, ◌∙◌, ◌⊎◌, inl,
  inr, Bool, true, false, ◌&&◌, ◌||◌, List, [], ◌∷◌, arith,
}
use tmpmail_fyi.Analytics.State.{Tables}
use tmpmail_fyi.Analytics.Tables.{
  Table, same_table, Key, all_keys, key_before, insert_key, sort_keys, oldest_keys,
  deliveries_table, http_requests_table, smtp_rejections_table,
}

abbrev pub OlderThan : Key → Key → Type 0
OlderThan q k = k.timestamp ≤ q.timestamp

abbrev Sorted : List Key → Type 0
Sorted [] = Unit
Sorted (k ∷ keys) = All (λ q. OlderThan q k) keys × Sorted keys

pub All-map-le :
    {P R : Key → Type 0} → ((k : Key) → P k → R k) → (keys : List Key) → All P keys → All R keys
All-map-le f [] h = tt
All-map-le f (k ∷ keys) (p, h) = (f k p, All-map-le f keys h)

module _ (P : Key → Type 0) where
  All-insert_key : (k : Key) (keys : List Key) → P k → All P keys → All P (insert_key k keys)
  unfolding insert_key
  All-insert_key k [] p h = (p, tt)
  All-insert_key k (q ∷ keys) p (r, h) = elim (Bool-cases (key_before q k)) [
    | inl e ↦ rw (e, insert_key) (r, All-insert_key k keys p h)
    | inr e ↦ rw (e, insert_key) (p, (r, h))
  ]

  insert_key-All : (k : Key) (keys : List Key) → All P (insert_key k keys) → P k × All P keys
  unfolding insert_key
  insert_key-All k [] h = h
  insert_key-All k (q ∷ keys) h = parted (key_before q k) h (insert_key-All k keys)
    where
      parted :
          (b : Bool)
          → All P (if b then q ∷ insert_key k keys else k ∷ q ∷ keys)
          → (All P (insert_key k keys) → P k × All P keys)
          → P k × (P q × All P keys)
      parted true (r, h) rest = let (p, l) = rest h in (p, (r, l))
      parted false h rest = h

  All-sort_keys : (keys : List Key) → All P keys → All P (sort_keys keys)
  unfolding sort_keys
  All-sort_keys [] h = tt
  All-sort_keys (k ∷ keys) (p, h) = All-insert_key k (sort_keys keys) p (All-sort_keys keys h)

  sort_keys-All : (keys : List Key) → All P (sort_keys keys) → All P keys
  unfolding sort_keys
  sort_keys-All [] h = tt
  sort_keys-All (k ∷ keys) h =
      let (p, rest) = insert_key-All k (sort_keys keys) h in (p, sort_keys-All keys rest)

insert_key-Sorted : (k : Key) (keys : List Key) → Sorted keys → Sorted (insert_key k keys)
unfolding insert_key
insert_key-Sorted k [] h = (tt, tt)
insert_key-Sorted k (q ∷ keys) (later, h) =
    placed (key_before q k) refl (All-insert_key (λ u. OlderThan u q) k keys)
      (insert_key-Sorted k keys h)
  where
    placed :
        (b : Bool)
        → key_before q k ≡ b
        → (OlderThan k q
            → All (λ u. OlderThan u q) keys
            → All (λ u. OlderThan u q) (insert_key k keys))
        → Sorted (insert_key k keys)
        → Sorted (if b then q ∷ insert_key k keys else k ∷ q ∷ keys)
    placed true e put rest = (put (ground (arith, e)) later, rest)
    placed false e put rest =
        let first : OlderThan q k = ground (arith, e) in
        ((first, All-map-le (λ u m. omega (arith, first, m)) keys later), (later, h))

sort_keys-Sorted : (keys : List Key) → Sorted (sort_keys keys)
unfolding sort_keys
sort_keys-Sorted [] = tt
sort_keys-Sorted (k ∷ keys) = insert_key-Sorted k (sort_keys keys) (sort_keys-Sorted keys)

All-trivial : (keys : List Key) → All (λ q. Unit {0}) keys
All-trivial [] = tt
All-trivial (k ∷ keys) = (tt, All-trivial keys)

pub All-pair :
    (P R : Key → Type 0) (keys : List Key) → All P keys → All R keys → All (λ q. P q × R q) keys
All-pair P R [] h k = tt
All-pair P R (q ∷ keys) (p, h) (r, k) = ((p, r), All-pair P R keys h k)

-- The first n are not younger than the others.
take-Sorted :
    (n : ℕ) (keys : List Key)
    → Sorted keys
    → All (λ q. All (λ k. OlderThan q k) (take n keys)) (drop n keys)
take-Sorted zero keys h = All-trivial keys
take-Sorted (suc n) [] h = tt
take-Sorted (suc n) (k ∷ keys) (later, h) =
    All-pair _ _ (drop n keys) (All-drop (λ q. OlderThan q k) n keys later) (take-Sorted n keys h)

abbrev pub same_key : Key → Key → Bool
same_key q k = same_table q.table k.table && eq_bytes q.id k.id

same_key_refl : (k : Key) → same_key k k ≡ true
same_key_refl k = by_table k.table ∙ eq_bytes_refl k.id
  where
    by_table : (t : Table) → (same_table t t && eq_bytes k.id k.id) ≡ eq_bytes k.id k.id
    by_table deliveries_table = refl
    by_table http_requests_table = refl
    by_table smtp_rejections_table = refl

abbrev pub IsIn : List Key → Key → Type 0
IsIn keys q = any (same_key q) keys ≡ true

All-IsIn : (keys : List Key) → All (IsIn keys) keys
All-IsIn [] = tt
All-IsIn (k ∷ keys) = (
  rw (same_key_refl k) refl,
  All-map-le (λ q h. rw h (or_true (same_key q k))) keys (All-IsIn keys),
)
  where
    or_true : (b : Bool) → (b || true) ≡ true
    or_true true = refl
    or_true false = refl

-- A key is one of the first n, or not older than any of them.
abbrev pub IsPlaced : List Key → Key → Type 0
IsPlaced keys q = IsIn keys q ⊎ All (λ k. OlderThan q k) keys

Sorted-IsPlaced : (n : ℕ) (keys : List Key) → Sorted keys → All (IsPlaced (take n keys)) keys
Sorted-IsPlaced n keys h = subst (All (IsPlaced (take n keys))) (take-append-drop n keys) (
    All-append _ (take n keys) (drop n keys)
      (All-map-le (λ q e. inl e) (take n keys) (All-IsIn (take n keys)))
      (All-map-le (λ q e. inr e) (drop n keys) (take-Sorted n keys h)))

pub oldest_keys-IsPlaced : (tables : Tables) → All (IsPlaced (oldest_keys tables)) (all_keys tables)
unfolding oldest_keys
oldest_keys-IsPlaced tables =
    sort_keys-All _ (all_keys tables)
      (Sorted-IsPlaced 256 (sort_keys (all_keys tables)) (sort_keys-Sorted (all_keys tables)))

pub length-oldest_keys : (tables : Tables) → length (oldest_keys tables) ≤ 256
unfolding oldest_keys
length-oldest_keys tables = omega (arith, length-take 256 (sort_keys (all_keys tables)))
