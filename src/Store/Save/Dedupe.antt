-- ===== src/Store/Save/Dedupe.antt =====
-- The recipients of a delivery, each once.
use mathlib.Core.List.{append_assoc, append-nil}
use tmpmail_fyi.Common.{
  Bool-cases, all, All, Bytes, eq_bytes, eq_bytes→eq, eq_bytes_refl, eq_bytes_symm, ◌≡◌, refl, sym,
  subst, ◌∙◌, inl, inr, Bool, true, false, ◌||◌, List, [], ◌∷◌, ◌++◌, map, arith,
}
use tmpmail_fyi.Address.{normalize_recipient, contains_recipient}
use tmpmail_fyi.Store.Save.{dedupe_from, dedupe}

-- No address stands twice.
abbrev pub NoRepeats : List Bytes → Type 0
NoRepeats [] = Unit
NoRepeats (r ∷ rs) = (contains_recipient rs r ≡ false) × NoRepeats rs

pub contains_recipient-append :
    (xs ys : List Bytes) (k : Bytes)
    → contains_recipient (xs ++ ys) k ≡ (contains_recipient xs k || contains_recipient ys k)
unfolding contains_recipient
contains_recipient-append [] ys k = refl
contains_recipient-append (x ∷ xs) ys k = ground (arith, contains_recipient-append xs ys k)

pub NoRepeats-append :
    (rs : List Bytes) (r : Bytes)
    → NoRepeats rs
    → contains_recipient rs r ≡ false
    → NoRepeats (rs ++ r ∷ [])
unfolding contains_recipient
NoRepeats-append [] r h fresh = (refl, tt)
NoRepeats-append (x ∷ rs) r (p, h) fresh = (
  ground (arith, contains_recipient-append rs (r ∷ []) x, eq_bytes_symm x r),
  NoRepeats-append rs r h (ground arith),
)

dedupe_from-NoRepeats : (seen rs : List Bytes) → NoRepeats seen → NoRepeats (dedupe_from seen rs)
unfolding dedupe_from
dedupe_from-NoRepeats seen [] h = h
dedupe_from-NoRepeats seen (r ∷ rs) h =
    elim (Bool-cases (contains_recipient seen (normalize_recipient r))) [
      | inl e ↦ rw e (dedupe_from-NoRepeats seen rs h)
      | inr e ↦ rw e (
          dedupe_from-NoRepeats (seen ++ normalize_recipient r ∷ []) rs
            (NoRepeats-append seen (normalize_recipient r) h e))
    ]

-- A canonical address that was seen adds nothing.
seen_before :
    (seen ns : List Bytes) (n k : Bytes)
    → contains_recipient seen n ≡ true
    → (contains_recipient seen k || contains_recipient (n ∷ ns) k)
      ≡ (contains_recipient seen k || contains_recipient ns k)
unfolding contains_recipient
seen_before seen ns n k h = elim (Bool-cases (eq_bytes n k)) [
  | inl e ↦ rw (e, subst (λ y. contains_recipient seen y ≡ true) (eq_bytes→eq n k e) h) refl
  | inr e ↦ rw e refl
]

or_none : (b : Bool) (k : Bytes) → b ≡ (b || contains_recipient [] k)
unfolding contains_recipient
or_none true k = refl
or_none false k = refl

new_one :
    (all seen ns : List Bytes) (n k : Bytes)
    → contains_recipient all k ≡ (contains_recipient seen k || contains_recipient (n ∷ []) k)
    → (contains_recipient all k || contains_recipient ns k)
      ≡ (contains_recipient seen k || contains_recipient (n ∷ ns) k)
unfolding contains_recipient
new_one all seen ns n k h = ground arith

contains_recipient-dedupe_from :
    (seen rs : List Bytes) (k : Bytes)
    → contains_recipient (dedupe_from seen rs) k
      ≡ (contains_recipient seen k || contains_recipient (map normalize_recipient rs) k)
unfolding dedupe_from
contains_recipient-dedupe_from seen [] k = or_none (contains_recipient seen k) k
contains_recipient-dedupe_from seen (r ∷ rs) k =
    let n = normalize_recipient r in
    let ns = map normalize_recipient rs in
    elim (Bool-cases (contains_recipient seen n)) [
      | inl e ↦ rw e (contains_recipient-dedupe_from seen rs k ∙ sym (seen_before seen ns n k e))
      | inr e ↦ rw e (
          contains_recipient-dedupe_from (seen ++ n ∷ []) rs k
          ∙ new_one (seen ++ n ∷ []) seen ns n k (contains_recipient-append seen (n ∷ []) k))
    ]

-- Save delivers to each canonical recipient once: no address stands twice in its list, and an address
-- is in the list exactly if it is the canonical form of a recipient given.
pub dedupe-Distinct :
    (rs : List Bytes)
    → NoRepeats (dedupe rs)
      × ((k : Bytes)
          → contains_recipient (dedupe rs) k ≡ contains_recipient (map normalize_recipient rs) k)
unfolding dedupe contains_recipient
dedupe-Distinct rs = (dedupe_from-NoRepeats [] rs tt, contains_recipient-dedupe_from [] rs)

-- The head of a list without repeats that follows `seen` is new.
NoRepeats-middle :
    (seen rs : List Bytes) (r : Bytes)
    → NoRepeats (seen ++ r ∷ rs)
    → contains_recipient seen r ≡ false
unfolding contains_recipient
NoRepeats-middle [] rs r h = refl
NoRepeats-middle (x ∷ seen) rs r (p, h) = ground (
  arith,
  contains_recipient-append seen (r ∷ rs) x,
  NoRepeats-middle seen rs r h,
  eq_bytes_symm x r,
  eq_bytes_refl r,
)

-- Canonical recipients without repeats are taken as they are.
dedupe_from-same :
    (seen rs : List Bytes)
    → NoRepeats (seen ++ rs)
    → All (λ r. normalize_recipient r ≡ r) rs
    → dedupe_from seen rs ≡ seen ++ rs
unfolding dedupe_from
dedupe_from-same seen [] h canonical = sym (append-nil seen)
dedupe_from-same seen (r ∷ rs) h (p, canonical) =
    rw (p, NoRepeats-middle seen rs r h)
      (dedupe_from-same (seen ++ r ∷ []) rs
          (subst NoRepeats (sym (append_assoc seen (r ∷ []) rs)) h) canonical
        ∙ append_assoc seen (r ∷ []) rs)

pub dedupe-same :
    (rs : List Bytes) → NoRepeats rs → All (λ r. normalize_recipient r ≡ r) rs → dedupe rs ≡ rs
unfolding dedupe
dedupe-same rs h canonical = dedupe_from-same [] rs h canonical
