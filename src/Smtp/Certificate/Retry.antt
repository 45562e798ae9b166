-- ===== src/Smtp/Certificate/Retry.antt =====
-- When a pair of files is loaded again.
use tmpmail_fyi.Common.{
  ltb, lt→ltb, Bool-cases, Bytes, ℕ, ◌≤◌, ◌<◌, ◌≡◌, refl, sym, ap, ◌∙◌, inl, inr, Bool, true, false,
  ◌&&◌, ◌||◌, some, arith,
}
use tmpmail_fyi.Smtp.Certificate.{
  CertificateState, Leaf, X509, Disk, Moments, Reloader, eq_state, files_state, Loaded, unchanged,
  check_leaf, load_from, load_certificate, after_reload, reload_if_changed, get_certificate, usable,
  not_yet_valid, broken,
}

-- A call during which the disk does not change.
abbrev pub quiet : Disk → ℕ → Moments
quiet disk now = record { seen = disk; before = disk; read = disk; after = disk; now = now }

eq_state_refl : (s : CertificateState) → eq_state s s ≡ true
unfolding eq_state
eq_state_refl s = ground arith

abbrev is_known : CertificateState → Reloader → Bool
is_known state r =
    eq_state state r.state || (r.has_failed_reload && eq_state state r.failed_reload_state)

module _ (x509 : X509) where
  get_certificate-known :
      (m : Moments) (r : Reloader) (state : CertificateState)
      → files_state m.seen r.cert_file r.key_file ≡ some state
      → is_known state r ≡ true
      → get_certificate x509 m r ≡ r
  unfolding get_certificate reload_if_changed
  get_certificate-known m r state found known = rw (found, known) refl

  get_certificate-new :
      (m : Moments) (r : Reloader) (state : CertificateState) (l : Loaded)
      → files_state m.seen r.cert_file r.key_file ≡ some state
      → is_known state r ≡ false
      → load_certificate x509 r.cert_file r.key_file r.server_name m ≡ l
      → get_certificate x509 m r ≡ after_reload x509 state r l
  unfolding get_certificate reload_if_changed
  get_certificate-new m r state l found new loaded = rw (found, new, loaded) refl

  module _ (disk : Disk) (cert_file key_file server_name : Bytes) (state : CertificateState)
      (cert : Bytes) (leaf : Leaf) (found : files_state disk cert_file key_file ≡ some state)
      (pair : disk.key_pair cert_file key_file ≡ some cert) (parsed : x509.parse cert ≡ some leaf)
      (covers : x509.verify_hostname leaf server_name ≡ true) where
    load_certificate-early :
        (now : ℕ)
        → now < leaf.not_before
        → load_certificate x509 cert_file key_file server_name (quiet disk now) ≡ not_yet_valid
    unfolding load_certificate load_from check_leaf
    load_certificate-early now h =
        rw (found, pair, load_from, parsed, check_leaf, covers, lt→ltb now leaf.not_before h) refl

    load_certificate-valid :
        (now : ℕ)
        → leaf.not_before ≤ now
        → now < leaf.not_after
        → load_certificate x509 cert_file key_file server_name (quiet disk now) ≡ usable cert state
    unfolding load_certificate load_from check_leaf unchanged
    load_certificate-valid now h k =
        let begun : ltb now leaf.not_before ≡ false = ground arith in
        rw
          (
            found,
            pair,
            load_from,
            parsed,
            check_leaf,
            covers,
            begun,
            lt→ltb now leaf.not_after k,
            found,
            unchanged,
            eq_state_refl state,
          )
          refl

  -- A pair of files for the server name, whose state is neither that of the certificate shown nor one
  -- remembered for a failed load, is not shown while it is not valid yet, and is shown by the next call
  -- within its validity although the files do not change again; earlier failures do not prevent it.
  pub get_certificate-future :
      (disk : Disk) (r : Reloader) (state : CertificateState) (cert : Bytes) (leaf : Leaf)
      (early late : ℕ)
      → files_state disk r.cert_file r.key_file ≡ some state
      → eq_state state r.state ≡ false
      → (r.has_failed_reload && eq_state state r.failed_reload_state) ≡ false
      → disk.key_pair r.cert_file r.key_file ≡ some cert
      → x509.parse cert ≡ some leaf
      → x509.verify_hostname leaf r.server_name ≡ true
      → early < leaf.not_before
      → leaf.not_before ≤ late
      → late < leaf.not_after
      → let waiting = get_certificate x509 (quiet disk early) r in
        (waiting.cert ≡ r.cert)
        × ((get_certificate x509 (quiet disk late) waiting).cert ≡ cert)
        × ((get_certificate x509 (quiet disk late) waiting).state ≡ state)
  unfolding after_reload
  get_certificate-future disk r state cert leaf early late found new fresh pair parsed covers h k
        l =
      let waited : get_certificate x509 (quiet disk early) r
          ≡ after_reload x509 state r not_yet_valid =
        get_certificate-new (quiet disk early) r state not_yet_valid found (rw (new, fresh) refl) (
          load_certificate-early disk r.cert_file r.key_file r.server_name state cert leaf found
            pair parsed covers early h) in
      let waiting : Reloader = after_reload x509 state r not_yet_valid in
      let shown : get_certificate x509 (quiet disk late) waiting
          ≡ after_reload x509 state waiting (usable cert state) =
        get_certificate-new (quiet disk late) waiting state (usable cert state) found (rw new refl)
          (load_certificate-valid disk r.cert_file r.key_file r.server_name state cert leaf found
            pair parsed covers late k l) in
      rw waited (rw shown (refl, refl, refl))

  -- A pair of files that failed to load, other than by not being valid yet, is not loaded again before
  -- its files change.
  pub get_certificate-broken :
      (first second : Moments) (r : Reloader) (state : CertificateState)
      → files_state first.seen r.cert_file r.key_file ≡ some state
      → files_state second.seen r.cert_file r.key_file ≡ some state
      → load_certificate x509 r.cert_file r.key_file r.server_name first ≡ broken
      → get_certificate x509 second (get_certificate x509 first r) ≡ get_certificate x509 first r
  unfolding after_reload
  get_certificate-broken first second r state found again failed =
      elim (Bool-cases (is_known state r)) [
        | inl e ↦
            let same = get_certificate-known first r state found e in
            ap (get_certificate x509 second) same
            ∙ get_certificate-known second r state again e
            ∙ sym same
        | inr e ↦
            let tried : get_certificate x509 first r ≡ after_reload x509 state r broken =
              get_certificate-new first r state broken found e failed in
            ap (get_certificate x509 second) tried
            ∙ get_certificate-known second (after_reload x509 state r broken) state again
                (failed_before (eq_state state r.state) (eq_state_refl state))
            ∙ sym tried
      ]
    where
      failed_before : {c : Bool} (b : Bool) → c ≡ true → (b || (true && c)) ≡ true
      failed_before true h = refl
      failed_before false h = h
