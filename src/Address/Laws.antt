-- ===== src/Address/Laws.antt =====
-- What the recipient tests and the canonical form guarantee.
use mathlib.Core.List.{append_assoc}
use native.Mathlib.Numerals.{add-one}
use tmpmail_fyi.Address.{normalize_recipient, accepts}
use tmpmail_fyi.Common.{
  Option-cases, length, take, drop, All, take-append-drop, Bytes, eq_bytes_iff, last_index,
  lower_byte, to_lower, equal_fold, ℕ, zero, suc, ◌≤◌, ◌<◌, ◌≡◌, refl, sym, ap, ◌∙◌, ◌≢◌, inl, inr,
  true, none, some, [], ◌∷◌, ◌++◌, arith,
}

-- strings.ToLower and strings.EqualFold fold no other letters of such texts than A to Z.
abbrev pub IsAscii : Bytes → Type 0
IsAscii s = All (λ c. c < 128) s

lower_byte_idem : (c : ℕ) → lower_byte (lower_byte c) ≡ lower_byte c
lower_byte_idem c = ground arith

to_lower_idem : (s : Bytes) → to_lower (to_lower s) ≡ to_lower s
to_lower_idem [] = refl
to_lower_idem (c ∷ s) = ground (arith, lower_byte_idem c, to_lower_idem s)

-- Lower case moves no `@`.
last_index-to_lower : (s : Bytes) → last_index b'@' (to_lower s) ≡ last_index b'@' s
unfolding last_index
last_index-to_lower [] = refl
last_index-to_lower (c ∷ s) = ground (arith, last_index-to_lower s)

canonical_from : ℕ → Bytes → Bytes
canonical_from at s = take at s ++ to_lower (drop at s)

last_index-canonical_from :
    (at : ℕ) (s : Bytes) → last_index b'@' (canonical_from at s) ≡ last_index b'@' s
unfolding canonical_from last_index
last_index-canonical_from zero s = last_index-to_lower s
last_index-canonical_from (suc at) [] = refl
last_index-canonical_from (suc at) (c ∷ s) = ground (arith, last_index-canonical_from at s)

canonical_from_idem :
    (at : ℕ) (s : Bytes) → canonical_from at (canonical_from at s) ≡ canonical_from at s
unfolding canonical_from
canonical_from_idem zero s = to_lower_idem s
canonical_from_idem (suc at) [] = refl
canonical_from_idem (suc at) (c ∷ s) = ap (◌∷◌ c) (canonical_from_idem at s)

drop-canonical_from : (at : ℕ) (s : Bytes) → drop at (canonical_from at s) ≡ to_lower (drop at s)
unfolding canonical_from
drop-canonical_from zero s = refl
drop-canonical_from (suc at) [] = refl
drop-canonical_from (suc at) (c ∷ s) = drop-canonical_from at s

take-canonical_from :
    (at : ℕ) (s : Bytes) → at ≤ length s → take at (canonical_from at s) ≡ take at s
unfolding canonical_from
take-canonical_from zero s h = refl
take-canonical_from (suc at) [] h = refl
take-canonical_from (suc at) (c ∷ s) h = ap (◌∷◌ c) (take-canonical_from at s (omega arith))

take_through_last_index :
    (c i : ℕ) (s : Bytes)
    → last_index c s ≡ some i
    → (take (suc i) s ≡ take i s ++ c ∷ []) × (length (take i s) ≡ i)
unfolding last_index
take_through_last_index c i [] h = cc
take_through_last_index c zero (x ∷ s) h = ground arith
take_through_last_index c (suc i) (x ∷ s) h = ground (arith, take_through_last_index c i s)

normalize_recipient_at :
    (at : ℕ) (s : Bytes)
    → last_index b'@' s ≡ some at
    → normalize_recipient s ≡ canonical_from (suc at) s
unfolding normalize_recipient canonical_from
normalize_recipient_at at s h = ground (arith, add-one at)

normalize_recipient-none : (s : Bytes) → last_index b'@' s ≡ none → normalize_recipient s ≡ s
unfolding normalize_recipient
normalize_recipient-none s h = rw (h, normalize_recipient)

-- Putting an address into canonical form a second time changes nothing.
pub normalize_recipient_idem :
    (s : Bytes) → normalize_recipient (normalize_recipient s) ≡ normalize_recipient s
normalize_recipient_idem s = elim (Option-cases (last_index b'@' s)) [
  | inl e ↦ ap normalize_recipient (normalize_recipient-none s e)
  | inr (at, e) ↦ rw (normalize_recipient_at at s e) (
      normalize_recipient_at at (canonical_from (suc at) s)
        (last_index-canonical_from (suc at) s ∙ e)
      ∙ canonical_from_idem (suc at) s)
]

pub accepts-canonical : (d s : Bytes) → accepts d (normalize_recipient s) ≡ accepts d s
unfolding accepts equal_fold
accepts-canonical d s = elim (Option-cases (last_index b'@' s)) [
  | inl e ↦ ap (accepts d) (normalize_recipient-none s e)
  | inr (at, e) ↦ ground (
    arith,
    add-one at,
    normalize_recipient_at at s e,
    last_index-canonical_from (suc at) s,
    drop-canonical_from (suc at) s,
    to_lower_idem (drop (suc at) s),
  )
]

-- For a domain and an address of ASCII characters: the canonical form of the address is accepted
-- exactly if the address is.
pub accepts-normalize_recipient :
    (d s : Bytes) → IsAscii d → IsAscii s → accepts d (normalize_recipient s) ≡ accepts d s
accepts-normalize_recipient d s _ _ = accepts-canonical d s

rejoin_with : (user : Bytes) (c : ℕ) (rest : Bytes) → (user ++ c ∷ []) ++ rest ≡ user ++ c ∷ rest
rejoin_with user c rest = append_assoc user (c ∷ []) rest

-- For an ASCII domain in lower case and an ASCII address: an accepted address is a non-empty local
-- part, an `@` and a domain, and its canonical form is that local part, unchanged, at the configured
-- domain.
pub normalize_recipient_of_accepts :
    (d s : Bytes)
    → IsAscii d
    → IsAscii s
    → to_lower d ≡ d
    → accepts d s ≡ true
    → (user : Bytes) × (domain : Bytes) × (user ≢ [])
      × (s ≡ user ++ b'@' ∷ domain)
      × (normalize_recipient s ≡ user ++ b'@' ∷ d)
unfolding accepts equal_fold canonical_from
normalize_recipient_of_accepts d s _ _ low h = elim (Option-cases (last_index b'@' s)) [
  | inl e ↦ absurd (ground arith)
  | inr (at, e) ↦
      let cut = take_through_last_index b'@' at s e in
      let same_domain : to_lower (drop (suc at) s) ≡ d =
        ground (arith, add-one at, eq_bytes_iff (to_lower (drop (suc at) s)) (to_lower d)) in
      (
        take at s,
        drop (suc at) s,
        ground (arith, cut.1),
        sym (take-append-drop (suc at) s)
            ∙ rw cut.0 (rejoin_with (take at s) b'@' (drop (suc at) s)),
        normalize_recipient_at at s e
            ∙ rw (cut.0, same_domain, canonical_from) (rejoin_with (take at s) b'@' d),
      )
]
