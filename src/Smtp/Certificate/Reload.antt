-- ===== src/Smtp/Certificate/Reload.antt =====
-- Which certificate the server shows.
use tmpmail_fyi.Common.{
  ltb, if◌then◌else◌, Bool-cases, All, Bytes, ◌≤◌, ◌<◌, ◌≡◌, refl, subst, ◌⊎◌, inl, inr, Bool, true,
  false, ◌&&◌, ◌||◌, Option, none, some, List, [], ◌∷◌, arith,
}
use tmpmail_fyi.Smtp.Certificate.{
  CertificateState, Leaf, X509, Moments, Reloader, eq_state, files_state, Loaded, unchanged,
  check_leaf, load_from, load_certificate, after_reload, reload_if_changed, get_certificate,
  get_all, new_reloader, usable, not_yet_valid, broken,
}

module _ (x509 : X509) where
  -- The certificate was read from the files at one of these moments, covers the name, and was valid by
  -- the clock of that moment.
  pub record WasValid (Moment : Moments → Type 0) (cert_file key_file server_name cert : Bytes)
      : Type 0 where
    pub leaf : Leaf
    pub moment : Moments
    pub loaded : Moment moment
    pub found : moment.read.key_pair cert_file key_file ≡ some cert
    pub parsed : x509.parse cert ≡ some leaf
    pub covers : x509.verify_hostname leaf server_name ≡ true
    pub begun : leaf.not_before ≤ moment.now
    pub not_over : moment.now < leaf.not_after

  module _ (Moment : Moments → Type 0) (cert_file key_file server_name : Bytes) where
    -- What a load finds is fit to be shown.
    abbrev pub IsFit : Loaded → Type 0
    IsFit (usable cert state) = WasValid Moment cert_file key_file server_name cert
    IsFit not_yet_valid = Unit
    IsFit broken = Unit

    unchanged-IsFit :
        (cert : Bytes) (before : CertificateState) (after : Option CertificateState)
        → WasValid Moment cert_file key_file server_name cert
        → IsFit (unchanged x509 cert before after)
    unfolding unchanged
    unchanged-IsFit cert before none h = tt
    unchanged-IsFit cert before (some after) h = elim (Bool-cases (eq_state before after)) [
      | inl e ↦ rw e h
      | inr e ↦ rw e tt
    ]

    check_leaf-IsFit :
        (cert : Bytes) (m : Moments) (o : Option Leaf) (before : CertificateState)
        (after : Option CertificateState)
        → Moment m
        → m.read.key_pair cert_file key_file ≡ some cert
        → x509.parse cert ≡ o
        → IsFit (check_leaf x509 server_name m.now o (unchanged x509 cert before after))
    unfolding check_leaf
    check_leaf-IsFit cert m none before after listed found p = tt
    check_leaf-IsFit cert m (some leaf) before after listed found p =
        elim (Bool-cases (x509.verify_hostname leaf server_name)) [
          | inr e ↦ rw (e, check_leaf) tt
          | inl e ↦ elim (Bool-cases (ltb m.now leaf.not_before)) [
            | inl f ↦ rw (e, f, check_leaf) tt
            | inr f ↦ elim (Bool-cases (ltb m.now leaf.not_after)) [
              | inr g ↦ rw (e, f, g, check_leaf) tt
              | inl g ↦
                  rw (e, f, g, check_leaf)
                    (unchanged-IsFit cert before after (record {
                      leaf = leaf;
                      moment = m;
                      loaded = listed;
                      found = found;
                      parsed = p;
                      covers = e;
                      begun = ground arith;
                      not_over = ground arith;
                    }))
            ]
          ]
        ]

    load_from-IsFit :
        (m : Moments) (state : Option CertificateState) (pair : Option Bytes)
        → Moment m
        → m.read.key_pair cert_file key_file ≡ pair
        → IsFit (load_from x509 cert_file key_file server_name m state pair)
    unfolding load_from
    load_from-IsFit m none pair listed found = tt
    load_from-IsFit m (some before) none listed found = tt
    load_from-IsFit m (some before) (some cert) listed found =
        check_leaf-IsFit cert m (x509.parse cert) before (files_state m.after cert_file key_file)
          listed found refl

    -- A reloader of these files that shows such a certificate.
    pub record IsShowing (r : Reloader) : Type 0 where
      pub same_cert : r.cert_file ≡ cert_file
      pub same_key : r.key_file ≡ key_file
      pub same_name : r.server_name ≡ server_name
      pub shown : WasValid Moment cert_file key_file server_name r.cert

    after_reload-IsShowing :
        (state : CertificateState) (r : Reloader) (l : Loaded)
        → IsFit l
        → IsShowing r
        → IsShowing (after_reload x509 state r l)
    unfolding after_reload
    after_reload-IsShowing state r (usable cert loaded) fit h = record {
      same_cert = h.same_cert;
      same_key = h.same_key;
      same_name = h.same_name;
      shown = fit;
    }
    after_reload-IsShowing state r not_yet_valid fit h = record {
      same_cert = h.same_cert;
      same_key = h.same_key;
      same_name = h.same_name;
      shown = h.shown;
    }
    after_reload-IsShowing state r broken fit h = record {
      same_cert = h.same_cert;
      same_key = h.same_key;
      same_name = h.same_name;
      shown = h.shown;
    }

    load_certificate-IsFit :
        (m : Moments) (r : Reloader)
        → Moment m
        → IsShowing r
        → IsFit (load_certificate x509 r.cert_file r.key_file r.server_name m)
    unfolding load_certificate
    load_certificate-IsFit m r listed h =
        rw (h.same_cert, h.same_key, h.same_name)
          (load_from-IsFit m (files_state m.before cert_file key_file)
            (m.read.key_pair cert_file key_file) listed refl)

    reload-IsShowing :
        (m : Moments) (r : Reloader) (o : Option CertificateState)
        → Moment m
        → IsShowing r
        → IsShowing (reload_if_changed x509 m r o)
    unfolding reload_if_changed
    reload-IsShowing m r none listed h = h
    reload-IsShowing m r (some state) listed h =
        if-IsShowing
          (eq_state state r.state || (r.has_failed_reload && eq_state state r.failed_reload_state))
      where
        if-IsShowing :
            (b : Bool)
            → IsShowing (
                if b
                then r
                else after_reload x509 state r
                    (load_certificate x509 r.cert_file r.key_file r.server_name m))
        if-IsShowing true = h
        if-IsShowing false =
            after_reload-IsShowing state r _ (load_certificate-IsFit m r listed h) h

    get_all-IsShowing :
        (ms : List Moments) (r : Reloader)
        → All Moment ms
        → IsShowing r
        → IsShowing (get_all x509 ms r)
    unfolding get_all get_certificate
    get_all-IsShowing [] r listed h = h
    get_all-IsShowing (m ∷ ms) r (first, listed) h =
        get_all-IsShowing ms (get_certificate x509 m r) listed
          (reload-IsShowing m r (files_state m.seen r.cert_file r.key_file) first h)

    some_inj : {a b : Reloader} → some a ≡ some b → a ≡ b
    some_inj e = cc

    new_reloader-IsShowing :
        (m : Moments) (r : Reloader)
        → Moment m
        → new_reloader x509 cert_file key_file server_name m ≡ some r
        → IsShowing r
    unfolding new_reloader load_certificate
    new_reloader-IsShowing m r listed h =
        go
          (load_from x509 cert_file key_file server_name m (files_state m.before cert_file key_file)
            (m.read.key_pair cert_file key_file))
          (load_from-IsFit m (files_state m.before cert_file key_file)
            (m.read.key_pair cert_file key_file) listed refl)
          h
      where
        go :
            (l : Loaded)
            → IsFit l
            → (elim l [
              | usable cert state ↦ some (record {
                cert_file = cert_file;
                key_file = key_file;
                server_name = server_name;
                cert = cert;
                state = state;
                failed_reload_state = state;
                has_failed_reload = false;
              })
              | not_yet_valid ↦ none
              | broken ↦ none
            ])
              ≡ some r
            → IsShowing r
        go (usable cert state) fit e =
            subst IsShowing (some_inj e)
              (record { same_cert = refl; same_key = refl; same_name = refl; shown = fit })
        go not_yet_valid fit e = cc
        go broken fit e = cc

  abbrev pub IsAmong : List Moments → Moments → Type 0
  IsAmong [] m = ⊥
  IsAmong (x ∷ ms) m = (m ≡ x) ⊎ IsAmong ms m

  All-IsAmong : (ms : List Moments) → All (IsAmong ms) ms
  All-IsAmong [] = tt
  All-IsAmong (m ∷ ms) = (inl refl, All-later ms (All-IsAmong ms))
    where
      All-later : (xs : List Moments) → All (IsAmong ms) xs → All (IsAmong (m ∷ ms)) xs
      All-later [] h = tt
      All-later (x ∷ xs) (p, h) = (inr p, All-later xs h)

  -- After any calls of GetCertificate, whatever they find on disk, a reloader shows a certificate that
  -- was read from its files by its start or by one of these calls, that covers its server name, and
  -- that was valid by the clock of that call.
  pub get_all-WasValid :
      (cert_file key_file server_name : Bytes) (m : Moments) (r : Reloader) (ms : List Moments)
      → new_reloader x509 cert_file key_file server_name m ≡ some r
      → WasValid (IsAmong (m ∷ ms)) cert_file key_file server_name (get_all x509 ms r).cert
  get_all-WasValid cert_file key_file server_name m r ms h =
      let listed = All-IsAmong (m ∷ ms) in
      let showing =
        get_all-IsShowing (IsAmong (m ∷ ms)) cert_file key_file server_name ms r listed.1 (
          new_reloader-IsShowing (IsAmong (m ∷ ms)) cert_file key_file server_name m r listed.0
            h) in
      showing.shown
