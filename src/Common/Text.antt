-- ===== src/Common/Text.antt =====
-- Byte strings and the functions of Go's package strings that the program calls. Case folding is
-- that of ASCII.
use Prim.Native.Nat.{ℕ, suc, ◌+◌}
use Prim.Native.Char.{code}
use Prim.Native.String.{String}
use mathlib.Core.Path.{◌≡◌, refl}
use mathlib.Core.Logic.{◌↔◌, ◌≢◌}
use mathlib.Core.Bool.{Bool, true, false, ◌&&◌, ◌||◌}
use mathlib.Core.Option.{Option, none, some}
use mathlib.Core.List.{List, [], ◌∷◌, map, reverse}
use native.Mathlib.Omega.{arith}
use tmpmail_fyi.Common.Tests.{leb, ◌==◌, if◌then◌else◌}

abbrev pub Bytes : Type 0
Bytes = List ℕ

-- The bytes of an ASCII literal.
abbrev pub codes : String → Bytes
codes String.[] = []
codes (String.◌∷◌ c s) = code c ∷ codes s

unfoldable pub eq_bytes : Bytes → Bytes → Bool
eq_bytes [] [] = true
eq_bytes (a ∷ s) (b ∷ t) = (a == b) && eq_bytes s t
eq_bytes _ _ = false

pub eq_bytes→eq : (s t : Bytes) → eq_bytes s t ≡ true → s ≡ t
unfolding eq_bytes
eq_bytes→eq [] [] h = refl
eq_bytes→eq [] (b ∷ t) h = cc
eq_bytes→eq (a ∷ s) [] h = cc
eq_bytes→eq (a ∷ s) (b ∷ t) h = ground (arith, eq_bytes→eq s t)

pub eq_bytes_refl : (s : Bytes) → eq_bytes s s ≡ true
unfolding eq_bytes
eq_bytes_refl [] = refl
eq_bytes_refl (a ∷ s) = ground (arith, eq_bytes_refl s)

pub eq_bytes_iff : (s t : Bytes) → (eq_bytes s t ≡ true) ↔ (s ≡ t)
eq_bytes_iff s t = (eq_bytes→eq s t, λ e. rw e (eq_bytes_refl t))

pub eq_bytes_symm : (s t : Bytes) → eq_bytes s t ≡ eq_bytes t s
unfolding eq_bytes
eq_bytes_symm [] [] = refl
eq_bytes_symm [] (b ∷ t) = refl
eq_bytes_symm (a ∷ s) [] = refl
eq_bytes_symm (a ∷ s) (b ∷ t) = ground (arith, eq_bytes_symm s t)

pub ne→eq_bytes : (s t : Bytes) → s ≢ t → eq_bytes s t ≡ false
ne→eq_bytes s t h = ground (arith, eq_bytes_iff s t)

-- strings.LastIndex for one byte; `none` is -1.
unfoldable pub last_index : ℕ → Bytes → Option ℕ
last_index c [] = none
last_index c (x ∷ s) = elim (last_index c s) [
  | some i ↦ some (suc i)
  | none ↦ if x == c then some 0 else none
]

abbrev pub lower_byte : ℕ → ℕ
lower_byte c = if leb b'A' c && leb c b'Z' then c + 32 else c

-- strings.ToLower and strings.EqualFold.
abbrev pub to_lower : Bytes → Bytes
to_lower = map lower_byte

unfoldable pub equal_fold : Bytes → Bytes → Bool
equal_fold s t = eq_bytes (to_lower s) (to_lower t)

unfoldable pub has_prefix : Bytes → Bytes → Bool
has_prefix s [] = true
has_prefix [] (b ∷ p) = false
has_prefix (a ∷ s) (b ∷ p) = (a == b) && has_prefix s p

unfoldable pub has_suffix : Bytes → Bytes → Bool
has_suffix s p = has_prefix (reverse s) (reverse p)

-- unicode.IsSpace on one byte.
abbrev pub is_space : ℕ → Bool
is_space c = c == 32 || (leb 9 c && leb c 13)

unfoldable pub trim_left : Bytes → Bytes
trim_left [] = []
trim_left (x ∷ s) = if is_space x then trim_left s else x ∷ s

-- strings.TrimSpace.
unfoldable pub trim_space : Bytes → Bytes
unfolding trim_left
trim_space s = reverse (trim_left (reverse (trim_left s)))

-- The text before and after the first occurrence of a byte, by strings.Cut: a text without the
-- byte stays whole, before an empty one.
unfoldable pub cut_before : ℕ → Bytes → Bytes
cut_before c [] = []
cut_before c (x ∷ s) = if x == c then [] else x ∷ cut_before c s

unfoldable pub cut_after : ℕ → Bytes → Bytes
cut_after c [] = []
cut_after c (x ∷ s) = if x == c then s else cut_after c s

-- strings.ContainsAny.
abbrev pub contains_byte : ℕ → Bytes → Bool
contains_byte c [] = false
contains_byte c (x ∷ s) = x == c || contains_byte c s

abbrev pub contains_any : Bytes → Bytes → Bool
contains_any [] chars = false
contains_any (x ∷ s) chars = contains_byte x chars || contains_any s chars

-- Every occurrence of a byte ends a part: strings.Split by one byte.
unfoldable pub split : ℕ → Bytes → List Bytes
split c [] = [] ∷ []
split c (x ∷ s) = elim (split c s) [
  | [] ↦ []
  | part ∷ parts ↦ if x == c then [] ∷ part ∷ parts else (x ∷ part) ∷ parts
]
