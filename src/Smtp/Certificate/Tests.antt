-- ===== src/Smtp/Certificate/Tests.antt =====
-- The certificate reloader at concrete files.
use tmpmail_fyi.Common.{
  ◌==◌, if◌then◌else◌, Bytes, codes, eq_bytes, ℕ, ◌≡◌, refl, Bool, true, false, ◌&&◌, ◌||◌, Option,
  none, some, List, [], ◌∷◌, arith,
}
use tmpmail_fyi.Smtp.Certificate.{
  CertificateState, Leaf, X509, Disk, Moments, Reloader, eq_state, files_state, load_certificate,
  get_certificate, get_all, new_reloader, broken,
}
use tmpmail_fyi.Smtp.Certificate.Reload.{WasValid, IsAmong, get_all-WasValid}
use tmpmail_fyi.Smtp.Certificate.Retry.{quiet, get_certificate-future, get_certificate-broken}

abbrev domain : Bytes
domain = codes "mail.test"

abbrev old_leaf : Leaf
old_leaf = record { not_before = 0; not_after = 10; names = domain ∷ [] }

abbrev new_leaf : Leaf
new_leaf = record { not_before = 20; not_after = 30; names = domain ∷ [] }

-- A certificate is its number.
abbrev parse_leaf : Bytes → Option Leaf
parse_leaf [] = none
parse_leaf (n ∷ cert) = if n == 1 then some old_leaf else if n == 2 then some new_leaf else none

abbrev has_name : List Bytes → Bytes → Bool
has_name [] name = false
has_name (n ∷ names) name = eq_bytes n name || has_name names name

abbrev numbered : X509
numbered = record { parse = parse_leaf; verify_hostname = λ leaf name. has_name leaf.names name }

abbrev disk_at : ℕ → Disk
disk_at n = record {
  stat = λ path. some (record { mod_time = n; size = 1 });
  key_pair = λ cert key. some (n ∷ []);
}

abbrev start : Moments
start = quiet (disk_at 1) 5

abbrev state_at : ℕ → CertificateState
state_at n = record {
  cert = record { mod_time = n; size = 1 };
  key = record { mod_time = n; size = 1 };
}

abbrev reloader : Reloader
reloader = record {
  cert_file = codes "c";
  key_file = codes "k";
  server_name = domain;
  cert = 1 ∷ [];
  state = state_at 1;
  failed_reload_state = state_at 1;
  has_failed_reload = false;
}

started : new_reloader numbered (codes "c") (codes "k") domain start ≡ some reloader
unfolding new_reloader files_state eq_bytes
started = refl

get_all-WasValid_example :
    WasValid numbered
      (IsAmong numbered (start ∷ quiet (disk_at 2) 15 ∷ quiet (disk_at 2) 25 ∷ []))
      (codes "c")
      (codes "k")
      domain
      (get_all numbered (quiet (disk_at 2) 15 ∷ quiet (disk_at 2) 25 ∷ []) reloader).cert
get_all-WasValid_example =
    get_all-WasValid numbered (codes "c") (codes "k") domain start reloader
      (quiet (disk_at 2) 15 ∷ quiet (disk_at 2) 25 ∷ []) started

disk_at_state : files_state (disk_at 2) (codes "c") (codes "k") ≡ some (state_at 2)
unfolding files_state
disk_at_state = refl

replaced : eq_state (state_at 2) (state_at 1) ≡ false
unfolding eq_state
replaced = refl

named : has_name (domain ∷ []) domain ≡ true
unfolding eq_bytes
named = refl

-- An earlier change of the files failed to load.
abbrev after_failure : Reloader
after_failure = record reloader { failed_reload_state = state_at 3; has_failed_reload = true }

not_tried :
    (after_failure.has_failed_reload && eq_state (state_at 2) after_failure.failed_reload_state)
    ≡ false
unfolding eq_state
not_tried = refl

get_certificate-future_example :
    ((get_certificate numbered (quiet (disk_at 2) 15) after_failure).cert ≡ 1 ∷ [])
    × ((get_certificate numbered
          (quiet (disk_at 2) 25)
          (get_certificate numbered (quiet (disk_at 2) 15) after_failure)).cert
        ≡ 2 ∷ [])
    × ((get_certificate numbered
          (quiet (disk_at 2) 25)
          (get_certificate numbered (quiet (disk_at 2) 15) after_failure)).state
        ≡ state_at 2)
get_certificate-future_example =
    get_certificate-future numbered (disk_at 2) after_failure (state_at 2) (2 ∷ []) new_leaf 15 25
      disk_at_state replaced not_tried refl refl named (omega arith) (omega arith) (omega arith)

late_load : load_certificate numbered (codes "c") (codes "k") domain (quiet (disk_at 2) 40) ≡ broken
unfolding load_certificate files_state eq_bytes
late_load = refl

get_certificate-broken_example :
    get_certificate numbered
      (quiet (disk_at 2) 50)
      (get_certificate numbered (quiet (disk_at 2) 40) reloader)
    ≡ get_certificate numbered (quiet (disk_at 2) 40) reloader
get_certificate-broken_example =
    get_certificate-broken numbered (quiet (disk_at 2) 40) (quiet (disk_at 2) 50) reloader
      (state_at 2) disk_at_state disk_at_state late_load
