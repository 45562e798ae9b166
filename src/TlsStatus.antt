-- ===== src/TlsStatus.antt =====
-- The TLS status of a service: tlsServiceStatus of internal/app/tls_status.go. x509.ParseCertificate
-- and the text of the SHA-256 of a certificate are parameters; a certificate is the bytes of its leaf.
mod Tests
use tmpmail_fyi.Common.{
  ltb, leb, if◌then◌else◌, Bytes, codes, ℕ, ◌-◌, ◌≤◌, ◌<◌, ◌≡◌, refl, sym, subst, ◌≢◌, ◌↔◌, Bool,
  true, false, ◌&&◌, Option, none, some, List, [], arith,
}

pub data Mode : Type 0 where
  mode_off mode_automatic mode_manual : Mode

pub data State : Type 0 where
  state_off state_pending state_unavailable state_not_yet_valid state_expired state_ready : State

pub record Leaf : Type 0 where
  pub not_before : ℕ
  pub not_after : ℕ
  pub issuer : Bytes
  pub dns_names : List Bytes
  pub raw : Bytes

pub record CertificateLibrary : Type 0 where
  pub parse : Bytes → Option Leaf
  pub fingerprint : Bytes → Bytes

pub record TlsServiceStatus : Type 0 where
  pub mode : Mode
  pub state : State
  pub domain : Bytes
  pub environment : Bytes
  pub not_before : Option ℕ
  pub not_after : Option ℕ
  pub issuer : Bytes
  pub dns_names : List Bytes
  pub fingerprint : Bytes
  pub expiring_soon : Bool

abbrev pub seven_days : ℕ
seven_days = 604_800_000_000_000

abbrev off_status : Mode → Bytes → TlsServiceStatus
off_status mode domain = record {
  mode = mode;
  state = state_off;
  domain = domain;
  environment = [];
  not_before = none;
  not_after = none;
  issuer = [];
  dns_names = [];
  fingerprint = [];
  expiring_soon = false;
}

abbrev pending_status : Bytes → Mode → Bytes → TlsServiceStatus
pending_status environment mode domain = record (off_status mode domain) {
  state = state_pending;
  environment = environment;
}

abbrev state_at : ℕ → Leaf → State
state_at now leaf =
    if ltb now leaf.not_before
    then state_not_yet_valid
    else if ltb now leaf.not_after
    then state_ready
    else state_expired

abbrev is_ready : State → Bool
is_ready state_ready = true
is_ready _ = false

module _ (lib : CertificateLibrary) (now : ℕ) where
  abbrev leaf_status : TlsServiceStatus → Option Leaf → TlsServiceStatus
  leaf_status status none = record status { state = state_unavailable }
  leaf_status status (some leaf) = record status {
    state = state_at now leaf;
    not_before = some leaf.not_before;
    not_after = some leaf.not_after;
    issuer = leaf.issuer;
    dns_names = leaf.dns_names;
    fingerprint = lib.fingerprint leaf.raw;
    expiring_soon = is_ready (state_at now leaf) && leb (leaf.not_after - now) seven_days;
  }

  abbrev cert_status : TlsServiceStatus → Option Bytes → TlsServiceStatus
  cert_status status none = status
  cert_status status (some cert) = leaf_status status (lib.parse cert)

  unfoldable pub tls_service_status : Mode → Bytes → Option Bytes → Bool → TlsServiceStatus
  tls_service_status mode_off domain cert staging = off_status mode_off domain
  tls_service_status mode_automatic domain cert staging =
      cert_status
        (pending_status (if staging then codes "staging" else codes "production") mode_automatic
          domain)
        cert
  tls_service_status mode_manual domain cert staging =
      cert_status (pending_status [] mode_manual domain) cert

  -- TLS is on, and the certificate is one that is valid now.
  abbrev pub IsServed : Mode → Option Bytes → Type 0
  IsServed mode cert =
      (mode ≢ mode_off)
      × (der : Bytes) × (cert ≡ some der)
      × (leaf : Leaf) × (lib.parse der ≡ some leaf)
      × (leaf.not_before ≤ now)
      × (now < leaf.not_after)

  state_at-ready :
      (leaf : Leaf)
      → state_at now leaf ≡ state_ready
      → (leaf.not_before ≤ now) × (now < leaf.not_after)
  state_at-ready leaf = by_tests (ltb now leaf.not_before) (ltb now leaf.not_after) refl refl
    where
      by_tests :
          (early open_ : Bool)
          → ltb now leaf.not_before ≡ early
          → ltb now leaf.not_after ≡ open_
          → (if early then state_not_yet_valid else if open_ then state_ready else state_expired)
            ≡ state_ready
          → (leaf.not_before ≤ now) × (now < leaf.not_after)
      by_tests true x e f h = absurd cc
      by_tests false false e f h = absurd cc
      by_tests false true e f h = (ground (arith, e), ground (arith, f))

  ready-state_at :
      (leaf : Leaf) → leaf.not_before ≤ now → now < leaf.not_after → state_at now leaf ≡ state_ready
  ready-state_at leaf h k =
      let begun : ltb now leaf.not_before ≡ false = ground (arith, h) in
      let open_ : ltb now leaf.not_after ≡ true = ground (arith, k) in rw (begun, open_) refl

  -- The state of a service whose TLS is on.
  cert_status-IsServed :
      (mode : Mode) (status : TlsServiceStatus) (cert : Option Bytes)
      → mode ≢ mode_off
      → status.state ≡ state_pending
      → ((cert_status status cert).state ≡ state_ready) ↔ IsServed mode cert
  cert_status-IsServed mode status none on pending =
      (λ h. absurd cc, λ (_, der, e, _, _, _, _). absurd cc)
  cert_status-IsServed mode status (some cert) on pending = by_leaf (lib.parse cert) refl
    where
      by_leaf :
          (o : Option Leaf)
          → lib.parse cert ≡ o
          → ((leaf_status status o).state ≡ state_ready) ↔ IsServed mode (some cert)
      by_leaf none e =
          (λ h. absurd cc, λ (_, der, f, leaf, g, _, _). let same : cert ≡ der = cc in absurd cc)
      by_leaf (some leaf) e = (
        λ h. let (begun, open_) = state_at-ready leaf h in (on, cert, refl, leaf, e, begun, open_),
        λ (_, der, f, other, g, begun, open_).
            let same_der : cert ≡ der = cc in
            let same : leaf ≡ other = cc in
            ready-state_at leaf (subst (λ l. l.not_before ≤ now) (sym same) begun)
              (subst (λ l. now < l.not_after) (sym same) open_),
      )

  -- For every mode, certificate and clock: the state is ready exactly when TLS is on for the service
  -- and its certificate is readable and within its time, from its beginning on and before its end.
  pub tls_service_status-IsServed :
      (mode : Mode) (domain : Bytes) (cert : Option Bytes) (staging : Bool)
      → ((tls_service_status mode domain cert staging).state ≡ state_ready) ↔ IsServed mode cert
  unfolding tls_service_status
  tls_service_status-IsServed mode_off domain cert staging =
      (λ h. absurd cc, λ (on, _, _, _, _, _, _). absurd (on refl))
  tls_service_status-IsServed mode_automatic domain cert staging =
      cert_status-IsServed mode_automatic _ cert (λ e. cc) refl
  tls_service_status-IsServed mode_manual domain cert staging =
      cert_status-IsServed mode_manual _ cert (λ e. cc) refl
