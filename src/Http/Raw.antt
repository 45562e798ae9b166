-- ===== src/Http/Raw.antt =====
-- splitRawMessage of internal/app/http.go.
use tmpmail_fyi.Common.{
  if◌then◌else◌, Bool-cases, length, drop, Bytes, has_prefix, ℕ, zero, suc, ◌≡◌, refl, ap, ◌⊎◌, inl,
  inr, true, false, Option, none, some, [], ◌∷◌, ◌++◌, arith,
}

abbrev pub two_crlf : Bytes
two_crlf = 13 ∷ 10 ∷ 13 ∷ 10 ∷ []

abbrev pub two_lf : Bytes
two_lf = 10 ∷ 10 ∷ []

abbrev prepend : ℕ → Option (Bytes × Bytes) → Option (Bytes × Bytes)
prepend c none = none
prepend c (some (before, after)) = some (c ∷ before, after)

-- strings.SplitN(s, sep, 2) for a separator that is not empty, if there are two parts.
unfoldable pub split_once : Bytes → Bytes → Option (Bytes × Bytes)
unfolding has_prefix
split_once sep [] = none
split_once sep (c ∷ s) =
    let rest = prepend c (split_once sep s) in
    if has_prefix (c ∷ s) sep then some ([], drop (length sep) (c ∷ s)) else rest

unfoldable pub split_raw_message : Bytes → Bytes × Bytes
unfolding split_once
split_raw_message raw = elim (split_once two_crlf raw) [
  | some parts ↦ parts
  | none ↦ elim (split_once two_lf raw) [ some parts ↦ parts | none ↦ (raw, []) ]
]

-- The separator does not begin before the place `n`.
abbrev pub NoneBefore : Bytes → ℕ → Bytes → Type 0
NoneBefore sep zero s = Unit
NoneBefore sep (suc n) [] = Unit
NoneBefore sep (suc n) (c ∷ s) = (has_prefix (c ∷ s) sep ≡ false) × NoneBefore sep n s

-- The first place of the separator, and the text around it.
abbrev pub IsSplit : Bytes → Bytes → Bytes × Bytes → Type 0
IsSplit sep s (before, after) = (s ≡ before ++ sep ++ after) × NoneBefore sep (length before) s

prefix_rejoin : (s sep : Bytes) → has_prefix s sep ≡ true → s ≡ sep ++ drop (length sep) s
unfolding has_prefix
prefix_rejoin s [] h = refl
prefix_rejoin [] (d ∷ sep) h = cc
prefix_rejoin (c ∷ s) (d ∷ sep) h =
    let same : c ≡ d = ground arith in
    let rest : has_prefix s sep ≡ true = ground arith in
    rw same (ap (◌∷◌ d) (prefix_rejoin s sep rest))

abbrev Splits : Bytes → Bytes → Option (Bytes × Bytes) → Type 0
Splits sep s none = NoneBefore sep (length s) s
Splits sep s (some parts) = IsSplit sep s parts

prepend-Splits :
    (sep : Bytes) (c : ℕ) (s : Bytes) (o : Option (Bytes × Bytes))
    → has_prefix (c ∷ s) sep ≡ false
    → Splits sep s o
    → Splits sep (c ∷ s) (prepend c o)
prepend-Splits sep c s none e h = (e, h)
prepend-Splits sep c s (some (before, after)) e (h, k) = (ap (◌∷◌ c) h, (e, k))

split_once-Splits : (sep s : Bytes) → Splits sep s (split_once sep s)
unfolding split_once
split_once-Splits sep [] = tt
split_once-Splits sep (c ∷ s) = elim (Bool-cases (has_prefix (c ∷ s) sep)) [
  | inl e ↦ rw e (prefix_rejoin (c ∷ s) sep e, tt)
  | inr e ↦ rw e (prepend-Splits sep c s (split_once sep s) e (split_once-Splits sep s))
]

-- The parts of a message, by the separators that it has.
abbrev pub IsRawSplit : Bytes → Bytes × Bytes → Type 0
IsRawSplit raw parts =
    IsSplit two_crlf raw parts
    ⊎ (NoneBefore two_crlf (length raw) raw
        × (IsSplit two_lf raw parts ⊎ (NoneBefore two_lf (length raw) raw × (parts ≡ (raw, [])))))

chosen-IsRawSplit :
    (raw : Bytes) (o p : Option (Bytes × Bytes))
    → Splits two_crlf raw o
    → Splits two_lf raw p
    → IsRawSplit raw
        (elim o [ some parts ↦ parts | none ↦ elim p [ some parts ↦ parts | none ↦ (raw, []) ] ])
chosen-IsRawSplit raw (some parts) p h k = inl h
chosen-IsRawSplit raw none (some parts) h k = inr (h, inl k)
chosen-IsRawSplit raw none none h k = inr (h, inr (k, refl))

-- A message is split at its first empty line with CRLF; if it has none, at its first empty line with
-- LF; if it has neither, it is all header. Nothing but the separator is lost.
pub split_raw_message-IsRawSplit : (raw : Bytes) → IsRawSplit raw (split_raw_message raw)
unfolding split_raw_message
split_raw_message-IsRawSplit raw =
    chosen-IsRawSplit raw (split_once two_crlf raw) (split_once two_lf raw)
      (split_once-Splits two_crlf raw) (split_once-Splits two_lf raw)
