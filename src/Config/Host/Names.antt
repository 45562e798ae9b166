-- ===== src/Config/Host/Names.antt =====
-- A host name that was accepted is accepted again, as it is.
use mathlib.Core.List.{reverse, reverse-cons, reverse-reverse}
use tmpmail_fyi.Common.{
  ◌==◌, if◌then◌else◌, Bool-cases, all, All, All-append, Bytes, lower_byte, to_lower, is_space,
  trim_left, trim_space, split, StartsPlain, StartsPlain-same, ℕ, ◌≡◌, refl, sym, ap, subst, ◌∙◌,
  ◌⊎◌, inl, inr, Bool, true, false, ◌||◌, Option, none, some, List, [], ◌∷◌, arith,
}
use tmpmail_fyi.Config.Host.{
  HostLibrary, trim_dot, is_host_byte, is_label, is_refused, accept_host, normalize_tls_host,
}

abbrev is_name_byte : ℕ → Bool
is_name_byte c = is_host_byte c || (c == b'.')

abbrev IsName : Bytes → Type 0
IsName s = All (λ c. is_name_byte c ≡ true) s

lower_byte-name : (c : ℕ) → is_name_byte c ≡ true → lower_byte c ≡ c
lower_byte-name c h = ground (arith, h)

to_lower-IsName : (s : Bytes) → IsName s → to_lower s ≡ s
to_lower-IsName [] h = refl
to_lower-IsName (c ∷ s) (p, h) = rw (lower_byte-name c p, to_lower-IsName s h) refl

name-not-space : (c : ℕ) → is_name_byte c ≡ true → is_space c ≡ false
name-not-space c h = ground (arith, h)

IsName-StartsPlain : (s : Bytes) → IsName s → StartsPlain s
IsName-StartsPlain [] h = tt
IsName-StartsPlain (c ∷ s) (p, h) = name-not-space c p

IsName-reverse : (s : Bytes) → IsName s → IsName (reverse s)
IsName-reverse [] h = tt
IsName-reverse (c ∷ s) (p, h) =
    rw (reverse-cons c s) (All-append _ (reverse s) (c ∷ []) (IsName-reverse s h) (p, tt))

trim_space-IsName : (s : Bytes) → IsName s → trim_space s ≡ s
unfolding trim_space
trim_space-IsName s h =
    let left : trim_left s ≡ s = StartsPlain-same s (IsName-StartsPlain s h) in
    let right : trim_left (reverse s) ≡ reverse s =
      StartsPlain-same (reverse s) (IsName-StartsPlain (reverse s) (IsName-reverse s h)) in
    rw (left, right) (reverse-reverse s)

-- One byte before the parts, `true` for a dot.
abbrev push : ℕ → Bool → List Bytes → List Bytes
push x dot [] = []
push x dot (part ∷ parts) = if dot then [] ∷ part ∷ parts else (x ∷ part) ∷ parts

abbrev ends_empty : List Bytes → Bool
ends_empty [] = false
ends_empty ([] ∷ []) = true
ends_empty ((c ∷ p) ∷ []) = false
ends_empty (p ∷ q ∷ parts) = ends_empty (q ∷ parts)

ends_empty-push :
    (x y : ℕ) (a b : Bool) (parts : List Bytes)
    → ends_empty (push x a (push y b parts)) ≡ ends_empty (push y b parts)
ends_empty-push x y a b [] = refl
ends_empty-push x y true true (p ∷ parts) = refl
ends_empty-push x y false true (p ∷ parts) = refl
ends_empty-push x y true false (p ∷ parts) = refl
ends_empty-push x y false false (p ∷ []) = refl
ends_empty-push x y false false (p ∷ q ∷ parts) = refl

trim_dot-cases : (s : Bytes) → (trim_dot s ≡ s) ⊎ (ends_empty (split b'.' s) ≡ true)
unfolding split
trim_dot-cases [] = inl refl
trim_dot-cases (x ∷ []) = elim (Bool-cases (x == b'.')) [
  | inl e ↦ inr (rw e refl)
  | inr e ↦ inl (rw e refl)
]
trim_dot-cases (x ∷ y ∷ s) = elim (trim_dot-cases (y ∷ s)) [
  | inl e ↦ inl (ap (◌∷◌ x) e)
  | inr e ↦ inr (ends_empty-push x y (x == b'.') (y == b'.') (split b'.' s) ∙ e)
]

split-cons : (c : ℕ) (s : Bytes) → (p : Bytes) × (ps : List Bytes) × (split c s ≡ p ∷ ps)
unfolding split
split-cons c [] = ([], [], refl)
split-cons c (x ∷ s) =
    let (p, ps, e) = split-cons c s in
    elim (Bool-cases (x == c)) [
      | inl f ↦ ([], p ∷ ps, rw (e, f) refl)
      | inr f ↦ (x ∷ p, ps, rw (e, f) refl)
    ]

abbrev AllHost : List Bytes → Type 0
AllHost parts = All (λ p. all is_host_byte p ≡ true) parts

push-AllHost :
    (x : ℕ) (b : Bool) (p : Bytes) (parts : List Bytes)
    → (x == b'.') ≡ b
    → AllHost (push x b (p ∷ parts))
    → (is_name_byte x ≡ true) × AllHost (p ∷ parts)
push-AllHost x true p parts e (_, h) = (ground (arith, e), h)
push-AllHost x false p parts e (first, h) = (ground (arith, first), (ground (arith, first), h))

host-IsName : (s : Bytes) → AllHost (split b'.' s) → IsName s
unfolding split
host-IsName [] h = tt
host-IsName (x ∷ s) h =
    let (p, ps, e) = split-cons b'.' s in
    let opened : AllHost (push x (x == b'.') (p ∷ ps)) =
      subst (λ r. AllHost (push x (x == b'.') r)) e h in
    let (first, rest) = push-AllHost x (x == b'.') p ps refl opened in
    (first, host-IsName s (subst AllHost (sym e) rest))

label-host : (parts : List Bytes) → all is_label parts ≡ true → AllHost parts
unfolding is_label
label-host [] h = tt
label-host (p ∷ parts) h = (ground (arith, h), label-host parts (ground (arith, h)))

label-ends : (parts : List Bytes) → all is_label parts ≡ true → ends_empty parts ≡ false
unfolding is_label
label-ends [] h = refl
label-ends ([] ∷ []) h = sym h
label-ends ((c ∷ p) ∷ []) h = refl
label-ends (p ∷ q ∷ parts) h = label-ends (q ∷ parts) (ground (arith, h))

-- A name that a certificate can be asked for.
pub record IsTlsHost (lib : HostLibrary) (ascii : Bytes) : Type 0 where
  pub not_refused : is_refused lib ascii ≡ false
  pub labels : all is_label (split b'.' ascii) ≡ true

abbrev Accepted : HostLibrary → Option Bytes → Bytes → Type 0
Accepted lib o ascii = (o ≡ some ascii) × IsTlsHost lib ascii

accept_host-Accepted :
    (lib : HostLibrary) (o : Option Bytes) (ascii : Bytes)
    → accept_host lib o ≡ some ascii
    → Accepted lib o ascii
accept_host-Accepted lib none ascii h = absurd (none_ne_some h)
  where
    none_ne_some : none ≡ some ascii → ⊥
    none_ne_some e = cc
accept_host-Accepted lib (some a) ascii h =
    by_checks (is_refused lib a) (all is_label (split b'.' a)) refl refl h
  where
    by_checks :
        (r l : Bool)
        → is_refused lib a ≡ r
        → all is_label (split b'.' a) ≡ l
        → (if r then none else if l then some a else none) ≡ some ascii
        → Accepted lib (some a) ascii
    by_checks true l e f k = absurd cc
    by_checks false false e f k = absurd cc
    by_checks false true e f k =
        let same : a ≡ ascii = cc in
        (k, subst (IsTlsHost lib) same (record { not_refused = e; labels = f }))

pub normalize_tls_host-IsTlsHost :
    (lib : HostLibrary) (host ascii : Bytes)
    → normalize_tls_host lib host ≡ some ascii
    → IsTlsHost lib ascii
unfolding normalize_tls_host
normalize_tls_host-IsTlsHost lib host ascii h =
    let (_, valid) = accept_host-Accepted lib _ ascii h in valid

-- What the lookup profile of idna does with a name that it made itself.
abbrev pub IsStable : HostLibrary → Type 0
IsStable lib =
    (host ascii : Bytes) → lib.to_ascii host ≡ some ascii → lib.to_ascii ascii ≡ some ascii

-- Nothing is trimmed off a name that was accepted, and nothing put to lower case.
same_name :
    (lib : HostLibrary) (ascii : Bytes)
    → IsTlsHost lib ascii
    → trim_dot (to_lower (trim_space ascii)) ≡ ascii
same_name lib ascii valid =
    let name : IsName ascii = host-IsName ascii (label-host (split b'.' ascii) valid.labels) in
    rw (trim_space-IsName ascii name, to_lower-IsName ascii name)
      (elim (trim_dot-cases ascii) [
        | inl e ↦ e
        | inr e ↦ absurd (true_ne_false (sym e ∙ label-ends (split b'.' ascii) valid.labels))
      ])
  where
    true_ne_false : true ≡ false → ⊥
    true_ne_false e = cc

-- If ToASCII leaves its own results as they are, a name that was normalized is normalized already.
pub normalize_tls_host_idem :
    (lib : HostLibrary) (host ascii : Bytes)
    → IsStable lib
    → normalize_tls_host lib host ≡ some ascii
    → normalize_tls_host lib ascii ≡ some ascii
unfolding normalize_tls_host
normalize_tls_host_idem lib host ascii stable h =
    let (made, valid) = accept_host-Accepted lib _ ascii h in
    rw (same_name lib ascii valid, stable _ ascii made, valid.not_refused, valid.labels) refl
