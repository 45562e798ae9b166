-- ===== src/Common/Trim.antt =====
-- Trimming twice is trimming once.
use mathlib.Core.Path.{◌≡◌, refl, sym, ap, subst, ◌∙◌}
use mathlib.Core.Logic.{inl, inr}
use mathlib.Core.Bool.{false}
use mathlib.Core.List.{[], ◌∷◌, ◌++◌, reverse, reverse-append, reverse-reverse}
use tmpmail_fyi.Common.Tests.{Bool-cases}
use tmpmail_fyi.Common.Text.{Bytes, is_space, trim_left, trim_space}

trim_left-suffix : (s : Bytes) → (q : Bytes) × (s ≡ q ++ trim_left s)
unfolding trim_left
trim_left-suffix [] = ([], refl)
trim_left-suffix (x ∷ s) = elim (Bool-cases (is_space x)) [
  | inl e ↦ let (q, h) = trim_left-suffix s in rw e (x ∷ q, ap (◌∷◌ x) h)
  | inr e ↦ rw e ([], refl)
]

-- No blank comes first.
abbrev pub StartsPlain : Bytes → Type 0
StartsPlain [] = Unit
StartsPlain (x ∷ s) = is_space x ≡ false

trim_left-StartsPlain : (s : Bytes) → StartsPlain (trim_left s)
unfolding trim_left
trim_left-StartsPlain [] = tt
trim_left-StartsPlain (x ∷ s) = elim (Bool-cases (is_space x)) [
  | inl e ↦ rw e (trim_left-StartsPlain s)
  | inr e ↦ rw e e
]

pub StartsPlain-same : (s : Bytes) → StartsPlain s → trim_left s ≡ s
unfolding trim_left
StartsPlain-same [] h = refl
StartsPlain-same (x ∷ s) h = rw h refl

StartsPlain-prefix : (p q : Bytes) → StartsPlain (p ++ q) → StartsPlain p
StartsPlain-prefix [] q h = tt
StartsPlain-prefix (x ∷ p) q h = h

-- The text is what trimming on the right leaves, and more.
trim_right-prefix : (u : Bytes) → (q : Bytes) × (u ≡ reverse (trim_left (reverse u)) ++ q)
trim_right-prefix u =
    let (q, h) = trim_left-suffix (reverse u) in
    (reverse q, sym (reverse-reverse u) ∙ ap reverse h ∙ reverse-append q (trim_left (reverse u)))

pub trim_space_idem : (s : Bytes) → trim_space (trim_space s) ≡ trim_space s
unfolding trim_space
trim_space_idem s =
    let u = trim_left s in
    let r = reverse (trim_left (reverse u)) in
    let (q, h) = trim_right-prefix u in
    let plain : StartsPlain r =
      StartsPlain-prefix r q (subst StartsPlain h (trim_left-StartsPlain s)) in
    let same : trim_left r ≡ r = StartsPlain-same r plain in
    let back : reverse r ≡ trim_left (reverse u) = reverse-reverse (trim_left (reverse u)) in
    let kept : trim_left (reverse r) ≡ trim_left (reverse u) =
      rw back (StartsPlain-same _ (trim_left-StartsPlain (reverse u))) in
    ap (λ x. reverse (trim_left (reverse x))) same ∙ ap reverse kept
