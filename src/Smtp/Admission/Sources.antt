-- ===== src/Smtp/Admission/Sources.antt =====
-- The map of sources under its three updates.
use tmpmail_fyi.Common.{
  Bool-cases, Bytes, eq_bytes, eq_bytes→eq, eq_bytes_refl, ℕ, ◌+◌, ◌-◌, ◌≡◌, refl, sym, subst, inl,
  inr, Bool, true, false, [], ◌∷◌,
}
use tmpmail_fyi.Smtp.Admission.{Sources, source_count, increment, decrement, delete_source}

abbrev pub one_if : Bool → ℕ
one_if true = 1
one_if false = 0

eq_bytes-other : (x j k : Bytes) → eq_bytes x j ≡ true → eq_bytes j k ≡ false → eq_bytes x k ≡ false
eq_bytes-other x j k e h = subst (λ y. eq_bytes y k ≡ false) (sym (eq_bytes→eq x j e)) h

pub source_count-increment_same :
    (k : Bytes) (s : Sources) → source_count k (increment k s) ≡ source_count k s + 1
unfolding source_count increment
source_count-increment_same k [] = rw (eq_bytes_refl k) refl
source_count-increment_same k ((x, n) ∷ s) = elim (Bool-cases (eq_bytes x k)) [
  | inl e ↦ rw (e, source_count, e) refl
  | inr e ↦ rw (e, source_count, e) (source_count-increment_same k s)
]

pub source_count-increment_other :
    (j k : Bytes) (s : Sources)
    → eq_bytes j k ≡ false
    → source_count k (increment j s) ≡ source_count k s
unfolding source_count increment
source_count-increment_other j k [] h = rw h refl
source_count-increment_other j k ((x, n) ∷ s) h = elim (Bool-cases (eq_bytes x j)) [
  | inl e ↦ rw (e, source_count, eq_bytes-other x j k e h) refl
  | inr e ↦ rw (e, source_count, source_count-increment_other j k s h) refl
]

pub source_count-decrement_same :
    (k : Bytes) (s : Sources) → source_count k (decrement k s) ≡ source_count k s - 1
unfolding source_count decrement
source_count-decrement_same k [] = refl
source_count-decrement_same k ((x, n) ∷ s) = elim (Bool-cases (eq_bytes x k)) [
  | inl e ↦ rw (e, source_count, e) refl
  | inr e ↦ rw (e, source_count, e) (source_count-decrement_same k s)
]

pub source_count-decrement_other :
    (j k : Bytes) (s : Sources)
    → eq_bytes j k ≡ false
    → source_count k (decrement j s) ≡ source_count k s
unfolding source_count decrement
source_count-decrement_other j k [] h = refl
source_count-decrement_other j k ((x, n) ∷ s) h = elim (Bool-cases (eq_bytes x j)) [
  | inl e ↦ rw (e, source_count, eq_bytes-other x j k e h) refl
  | inr e ↦ rw (e, source_count, source_count-decrement_other j k s h) refl
]

pub source_count-delete_same : (k : Bytes) (s : Sources) → source_count k (delete_source k s) ≡ 0
unfolding source_count delete_source
source_count-delete_same k [] = refl
source_count-delete_same k ((x, n) ∷ s) = elim (Bool-cases (eq_bytes x k)) [
  | inl e ↦ rw e (source_count-delete_same k s)
  | inr e ↦ rw (e, source_count, e) (source_count-delete_same k s)
]

pub source_count-delete_other :
    (j k : Bytes) (s : Sources)
    → eq_bytes j k ≡ false
    → source_count k (delete_source j s) ≡ source_count k s
unfolding source_count delete_source
source_count-delete_other j k [] h = refl
source_count-delete_other j k ((x, n) ∷ s) h = elim (Bool-cases (eq_bytes x j)) [
  | inl e ↦ rw (e, eq_bytes-other x j k e h) (source_count-delete_other j k s h)
  | inr e ↦ rw (e, source_count, source_count-delete_other j k s h) refl
]
