-- ===== src/Smtp/Certificate.antt =====
-- The certificate reloader: newTLSCertificateReloader, (r *tlsCertificateReloader) GetCertificate,
-- loadTLSCertificate and tlsCertificateFilesState of internal/app/smtp.go. The parser of certificates
-- (crypto/tls, crypto/x509) is a parameter, and what a call finds on disk at each of its readings
-- is an argument. The callback of a reload is a metric and is left out.
pub mod Reload
pub mod Retry
mod Tests
use tmpmail_fyi.Common.{
  ltb, ◌==◌, if◌then◌else◌, Bytes, ℕ, Bool, true, false, ◌&&◌, ◌||◌, Option, none, some, List, [],
  ◌∷◌,
}

pub record FileState : Type 0 where
  pub mod_time : ℕ
  pub size : ℕ

pub record CertificateState : Type 0 where
  pub cert : FileState
  pub key : FileState

pub record Leaf : Type 0 where
  pub not_before : ℕ
  pub not_after : ℕ
  pub names : List Bytes

-- x509.ParseCertificate of the first certificate of a chain, and VerifyHostname.
pub record X509 : Type 0 where
  pub parse : Bytes → Option Leaf
  pub verify_hostname : Leaf → Bytes → Bool

-- os.Stat and tls.LoadX509KeyPair at one moment.
pub record Disk : Type 0 where
  pub stat : Bytes → Option FileState
  pub key_pair : Bytes → Bytes → Option Bytes

-- The moments of a call: the check for a change, the three of the load, and its clock.
pub record Moments : Type 0 where
  pub seen : Disk
  pub before : Disk
  pub read : Disk
  pub after : Disk
  pub now : ℕ

pub record Reloader : Type 0 where
  pub cert_file : Bytes
  pub key_file : Bytes
  pub server_name : Bytes
  pub cert : Bytes
  pub state : CertificateState
  pub failed_reload_state : CertificateState
  pub has_failed_reload : Bool

abbrev pub eq_file_state : FileState → FileState → Bool
eq_file_state a b = (a.mod_time == b.mod_time) && (a.size == b.size)

unfoldable pub eq_state : CertificateState → CertificateState → Bool
eq_state a b = eq_file_state a.cert b.cert && eq_file_state a.key b.key

unfoldable pub both_states : Option FileState → Option FileState → Option CertificateState
both_states (some cert) (some key) = some (record { cert = cert; key = key })
both_states (some cert) none = none
both_states none key = none

unfoldable pub files_state : Disk → Bytes → Bytes → Option CertificateState
unfolding both_states
files_state disk cert_file key_file = both_states (disk.stat cert_file) (disk.stat key_file)

-- A certificate with the state of its files, or an error, which may be errTLSCertificateNotYetValid.
pub data Loaded : Type 0 where
  usable : Bytes → CertificateState → Loaded
  not_yet_valid : Loaded
  broken : Loaded

module _ (x509 : X509) where
  -- The files are as before the load.
  unfoldable pub unchanged : Bytes → CertificateState → Option CertificateState → Loaded
  unfolding eq_state
  unchanged cert before none = broken
  unchanged cert before (some after) = if eq_state before after then usable cert after else broken

  unfoldable pub check_leaf : Bytes → ℕ → Option Leaf → Loaded → Loaded
  check_leaf server_name now none rest = broken
  check_leaf server_name now (some leaf) rest =
      if x509.verify_hostname leaf server_name
      then (if ltb now leaf.not_before
          then not_yet_valid
          else (if ltb now leaf.not_after then rest else broken))
      else broken

  unfoldable pub load_from :
      Bytes → Bytes → Bytes → Moments → Option CertificateState → Option Bytes → Loaded
  unfolding files_state unchanged check_leaf
  load_from cert_file key_file server_name m none pair = broken
  load_from cert_file key_file server_name m (some before) none = broken
  load_from cert_file key_file server_name m (some before) (some cert) =
      check_leaf server_name m.now (x509.parse cert)
        (unchanged cert before (files_state m.after cert_file key_file))

  unfoldable pub load_certificate : Bytes → Bytes → Bytes → Moments → Loaded
  unfolding load_from files_state
  load_certificate cert_file key_file server_name m =
      load_from cert_file key_file server_name m (files_state m.before cert_file key_file)
        (m.read.key_pair cert_file key_file)

  -- The failure is remembered, unless the certificate is only not valid yet.
  unfoldable pub after_reload : CertificateState → Reloader → Loaded → Reloader
  after_reload state r (usable cert loaded) = record r {
    cert = cert;
    state = loaded;
    has_failed_reload = false;
  }
  after_reload state r not_yet_valid = record r {
    failed_reload_state = state;
    has_failed_reload = false;
  }
  after_reload state r broken = record r { failed_reload_state = state; has_failed_reload = true }

  unfoldable pub reload_if_changed : Moments → Reloader → Option CertificateState → Reloader
  unfolding eq_state load_certificate after_reload
  reload_if_changed m r none = r
  reload_if_changed m r (some state) =
      if eq_state state r.state || (r.has_failed_reload && eq_state state r.failed_reload_state)
      then r
      else after_reload state r (load_certificate r.cert_file r.key_file r.server_name m)

  -- The certificate returned is that of the reloader after the call.
  unfoldable pub get_certificate : Moments → Reloader → Reloader
  unfolding reload_if_changed files_state
  get_certificate m r = reload_if_changed m r (files_state m.seen r.cert_file r.key_file)

  unfoldable pub get_all : List Moments → Reloader → Reloader
  unfolding get_certificate
  get_all [] r = r
  get_all (m ∷ ms) r = get_all ms (get_certificate m r)

  unfoldable pub new_reloader : Bytes → Bytes → Bytes → Moments → Option Reloader
  unfolding load_certificate
  new_reloader cert_file key_file server_name m =
      elim (load_certificate cert_file key_file server_name m) [
        | usable cert state ↦ some (record {
          cert_file = cert_file;
          key_file = key_file;
          server_name = server_name;
          cert = cert;
          state = state;
          failed_reload_state = state;
          has_failed_reload = false;
        })
        | not_yet_valid ↦ none
        | broken ↦ none
      ]
