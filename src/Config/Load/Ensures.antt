-- ===== src/Config/Load/Ensures.antt =====
-- Rules for what LoadConfig of internal/app/config.go accepts.
use tmpmail_fyi.Common.{
  leb, Bool-cases, Bytes, ℤ, pos, negsuc, ℕ, zero, suc, ◌≤◌, ◌<◌, ◌≡◌, refl, inl, inr, Bool, true,
  false, Option, none, some, arith,
}
use tmpmail_fyi.Config.{}
use tmpmail_fyi.Config.Host.{normalize_tls_host}
use tmpmail_fyi.Config.Host.Names.{IsTlsHost, normalize_tls_host-IsTlsHost}
use tmpmail_fyi.Config.Load.{}
use tmpmail_fyi.Config.Load.Values.{
  ConfigLibrary, Loaded, ◌>>=◌, refuse_if, parsed, above_zero, accepted, refused,
}
use tmpmail_fyi.Config.Load.Ports.{}
use tmpmail_fyi.Config.Load.Stages.{at_most, wrapped}
use tmpmail_fyi.Config.Load.Tls.{normalized}

-- What is accepted has the property.
unfoldable pub Ensures : {A : Type 0} → (A → Type 0) → Loaded A → Type 0
Ensures P (accepted a) = P a
Ensures P (refused e) = Unit

pub bind-Ensures :
    {A B : Type 0} (P : A → Type 0) (R : B → Type 0) (m : Loaded A) (f : A → Loaded B)
    → Ensures P m
    → ((a : A) → P a → Ensures R (f a))
    → Ensures R (m >>= f)
unfolding Ensures ◌>>=◌
bind-Ensures P R (accepted a) f h k = k a h
bind-Ensures P R (refused e) f h k = tt

-- A value of which nothing is said.
pub skip-Ensures :
    {A B : Type 0} (R : B → Type 0) (m : Loaded A) (f : A → Loaded B)
    → ((a : A) → Ensures R (f a))
    → Ensures R (m >>= f)
unfolding Ensures ◌>>=◌
skip-Ensures R (accepted a) f k = k a
skip-Ensures R (refused e) f k = tt

pub refuse_if-Ensures :
    {B : Type 0} (R : B → Type 0) (b : Bool) (message : Bytes) (f : Unit {0} → Loaded B)
    → (b ≡ false → Ensures R (f tt))
    → Ensures R (refuse_if b message >>= f)
unfolding Ensures ◌>>=◌ refuse_if
refuse_if-Ensures R true message f k = tt
refuse_if-Ensures R false message f k = k refl

pub above_zero-Ensures :
    (message : Bytes) (o : Option ℤ) → Ensures (λ n. 0 < n) (above_zero message o)
unfolding Ensures above_zero
above_zero-Ensures message none = tt
above_zero-Ensures message (some (negsuc n)) = tt
above_zero-Ensures message (some (pos zero)) = tt
above_zero-Ensures message (some (pos (suc n))) = omega arith

pub at_most-Ensures :
    (n d : ℕ) (message : Bytes) → 0 < d → Ensures (λ t. (0 < t) × (t ≤ n)) (at_most n message d)
unfolding Ensures at_most
at_most-Ensures n d message h = elim (Bool-cases (leb d n)) [
  | inl e ↦ rw e (h, ground (arith, e))
  | inr e ↦ rw e tt
]

pub accepted-Ensures : {A : Type 0} (P : A → Type 0) (a : A) → P a → Ensures P (accepted a)
unfolding Ensures
accepted-Ensures P a h = h

pub refused-Ensures : {A : Type 0} (P : A → Type 0) (e : Bytes) → Ensures P (refused e)
unfolding Ensures
refused-Ensures P e = tt

pub elim-Ensures :
    {A : Type 0} (P : A → Type 0) (b : Bool) (m n : Loaded A)
    → (b ≡ true → Ensures P m)
    → (b ≡ false → Ensures P n)
    → Ensures P (elim b [ true ↦ m | false ↦ n ])
elim-Ensures P true m n h k = h refl
elim-Ensures P false m n h k = k refl

-- A result that is put under the name of its setting.
pub wrapped-Ensures :
    {A : Type 0} (P : A → Type 0) (key : Bytes) (m : Loaded A)
    → Ensures P m
    → Ensures P (wrapped key m)
unfolding Ensures wrapped
wrapped-Ensures P key (accepted a) h = h
wrapped-Ensures P key (refused e) h = tt

pub parsed-Ensures :
    {A : Type 0} (message : Bytes) (o : Option A) → Ensures (λ a. o ≡ some a) (parsed message o)
unfolding Ensures parsed
parsed-Ensures message none = tt
parsed-Ensures message (some a) = refl

pub map-Ensures :
    {A : Type 0} (P R : A → Type 0) (m : Loaded A)
    → ((a : A) → P a → R a)
    → Ensures P m
    → Ensures R m
unfolding Ensures
map-Ensures P R (accepted a) f h = f a h
map-Ensures P R (refused e) f h = tt

pub normalized-Ensures :
    (lib : ConfigLibrary) (key : Bytes) (b : Bool) (host : Bytes)
    → Ensures
        (λ r. (b ≡ true → IsTlsHost lib.hosts r) × (b ≡ false → r ≡ host))
        (normalized lib key b host)
unfolding normalized
normalized-Ensures lib key false host = accepted-Ensures _ host (λ e. absurd cc, λ e. refl)
normalized-Ensures lib key true host =
    map-Ensures _ _ _
      (λ r e. (λ _. normalize_tls_host-IsTlsHost lib.hosts host r e, λ f. absurd cc))
      (parsed-Ensures _ (normalize_tls_host lib.hosts host))
