-- ===== src/Config/Load/Distinct.antt =====
-- The headers to log are distinct, and so are the ports of the listeners.
use tmpmail_fyi.Common.{
  ◌==◌, if◌then◌else◌, Bool-cases, All, Bytes, codes, eq_bytes, eq_bytes_symm, trim_space, ℕ, ◌≡◌,
  refl, ap, subst, ◌∙◌, ◌≢◌, inl, inr, Bool, true, false, not, ◌||◌, Option, none, some, List, [],
  ◌∷◌, ◌++◌, arith,
}
use tmpmail_fyi.Config.{}
use tmpmail_fyi.Config.Host.{}
use tmpmail_fyi.Config.Host.Names.{}
use tmpmail_fyi.Config.Load.{}
use tmpmail_fyi.Config.Load.Values.{
  ConfigLibrary, valid_header_name, has_header, collect_headers, refused,
}
use tmpmail_fyi.Config.Load.Ports.{Address, port_of, PortMap, lookup_port, check_ports}
use tmpmail_fyi.Config.Load.Stages.{}
use tmpmail_fyi.Config.Load.Tls.{}
use tmpmail_fyi.Config.Load.Ensures.{
  Ensures, bind-Ensures, accepted-Ensures, refused-Ensures, parsed-Ensures, map-Ensures,
}

-- Each stands once.
abbrev pub AllOnce : List Bytes → Type 0
AllOnce [] = Unit
AllOnce (h ∷ headers) = (has_header h headers ≡ false) × AllOnce headers

any-append-last :
    (header q : Bytes) (headers : List Bytes)
    → has_header q (headers ++ header ∷ []) ≡ (has_header q headers || eq_bytes q header)
any-append-last header q [] = or_false (eq_bytes q header)
  where
    or_false : (b : Bool) → (b || false) ≡ b
    or_false true = refl
    or_false false = refl
any-append-last header q (r ∷ headers) =
    ap (◌||◌ (eq_bytes q r)) (any-append-last header q headers)
    ∙ or_assoc (eq_bytes q r) (has_header q headers) (eq_bytes q header)
  where
    or_assoc : (a b c : Bool) → (a || (b || c)) ≡ ((a || b) || c)
    or_assoc true b c = refl
    or_assoc false b c = refl

or_false-left : (a b : Bool) → (a || b) ≡ false → a ≡ false
or_false-left true b h = h
or_false-left false b h = refl

or_false-right : (a b : Bool) → (a || b) ≡ false → b ≡ false
or_false-right true b h = absurd cc
or_false-right false b h = h

AllOnce-append :
    (header : Bytes) (headers : List Bytes)
    → has_header header headers ≡ false
    → AllOnce headers
    → AllOnce (headers ++ header ∷ [])
AllOnce-append header [] h k = (refl, tt)
AllOnce-append header (q ∷ headers) h (first, k) =
    let apart : eq_bytes q header ≡ false = eq_bytes_symm q header ∙ or_false-left _ _ h in
    (
      any-append-last header q headers ∙ rw (first, apart) refl,
      AllOnce-append header headers (or_false-right (eq_bytes header q) _ h) k,
    )

pub collect_headers-Ensures :
    (lib : ConfigLibrary) (headers parts : List Bytes)
    → AllOnce headers
    → Ensures AllOnce (collect_headers lib headers parts)
unfolding collect_headers Ensures
collect_headers-Ensures lib headers [] h = h
collect_headers-Ensures lib headers (part ∷ parts) h =
    let canonical = lib.canonical_header_key (trim_space part) in
    elim (Bool-cases (not (valid_header_name (trim_space part)))) [
      | inl e ↦ rw e tt
      | inr e ↦ rw e (elim (Bool-cases (has_header canonical headers)) [
        | inl f ↦ rw f (collect_headers-Ensures lib headers parts h)
        | inr f ↦ rw f (
            collect_headers-Ensures lib (headers ++ canonical ∷ []) parts
              (AllOnce-append canonical headers f h))
      ])
    ]

-- Each address has a port, and no later one has the same.
abbrev pub HasOwnPorts : ConfigLibrary → List Address → Type 0
HasOwnPorts lib [] = Unit
HasOwnPorts lib (a ∷ addresses) =
    (n : ℕ) × (port_of lib a.addr ≡ some n)
    × All (λ b. port_of lib b.addr ≢ some n) addresses
    × HasOwnPorts lib addresses

-- No address has a port that was met.
abbrev AreNew : ConfigLibrary → PortMap → List Address → Type 0
AreNew lib ports addresses =
    All (λ a. (n : ℕ) → port_of lib a.addr ≡ some n → lookup_port n ports ≡ none) addresses

not_hit :
    (b : Bool) (name : Bytes) (o : Option Bytes) → (if b then some name else o) ≡ none → o ≡ none
not_hit true name o h = absurd cc
not_hit false name o h = h

was_hit :
    (b : Bool) (name : Bytes) (o : Option Bytes)
    → b ≡ true
    → (if b then some name else o) ≡ none
    → ⊥
was_hit true name o e h = cc
was_hit false name o e h = cc

same : (n : ℕ) → (n == n) ≡ true
same n = ground arith

AreNew-cons :
    (lib : ConfigLibrary) (n : ℕ) (name : Bytes) (ports : PortMap) (addresses : List Address)
    → AreNew lib ((n, name) ∷ ports) addresses
    → AreNew lib ports addresses × All (λ b. port_of lib b.addr ≢ some n) addresses
unfolding lookup_port
AreNew-cons lib n name ports [] h = (tt, tt)
AreNew-cons lib n name ports (b ∷ addresses) (new, h) =
    let (before, apart) = AreNew-cons lib n name ports addresses h in
    (
      (λ m e. not_hit (n == m) name (lookup_port m ports) (new m e), before),
      (λ e. was_hit (n == n) name (lookup_port n ports) (same n) (new n e), apart),
    )

pub check_ports-Ensures :
    (lib : ConfigLibrary) (ports : PortMap) (addresses : List Address)
    → Ensures
        (λ _. AreNew lib ports addresses × HasOwnPorts lib addresses)
        (check_ports lib ports addresses)
unfolding check_ports
check_ports-Ensures lib ports [] = accepted-Ensures _ tt (tt, tt)
check_ports-Ensures lib ports (a ∷ addresses) =
    bind-Ensures _ _ _ _ (parsed-Ensures _ (port_of lib a.addr)) λ n e.
      by_lookup n e (lookup_port n ports) refl
        (check_ports-Ensures lib ((n, a.name) ∷ ports) addresses)
  where
    by_lookup :
        (n : ℕ)
        → port_of lib a.addr ≡ some n
        → (o : Option Bytes) → lookup_port n ports ≡ o
        → Ensures
            (λ _. AreNew lib ((n, a.name) ∷ ports) addresses × HasOwnPorts lib addresses)
            (check_ports lib ((n, a.name) ∷ ports) addresses)
        → Ensures
            (λ _. AreNew lib ports (a ∷ addresses) × HasOwnPorts lib (a ∷ addresses))
            (elim o [
              | some previous ↦
                  refused (a.name ++ codes " and " ++ previous ++ codes " use the same port")
              | none ↦ check_ports lib ((n, a.name) ∷ ports) addresses
            ])
    by_lookup n e (some previous) f rest = refused-Ensures _ _
    by_lookup n e none f rest =
        map-Ensures _ _ _
          (λ _ (new, own).
            let (before, apart) = AreNew-cons lib n a.name ports addresses new in
            (
              (
                λ m k. let same : n ≡ m = cc in subst (λ q. lookup_port q ports ≡ none) same f,
                before,
              ),
              (n, e, apart, own),
            ))
          rest
