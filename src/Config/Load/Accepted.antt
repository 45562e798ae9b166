-- ===== src/Config/Load/Accepted.antt =====
-- What holds of the settings that LoadConfig of internal/app/config.go accepts.
use tmpmail_fyi.Common.{
  Bool-cases, Bytes, codes, split, ℕ, ◌≤◌, ◌<◌, ◌≡◌, refl, sym, subst, inl, inr, Bool, true, false,
  not, ◌&&◌, ◌||◌, [],
}
use tmpmail_fyi.Config.{}
use tmpmail_fyi.Config.Host.{}
use tmpmail_fyi.Config.Host.Names.{IsTlsHost}
use tmpmail_fyi.Config.Load.{}
use tmpmail_fyi.Config.Load.Values.{
  ConfigLibrary, Loaded, ◌>>=◌, env, switch, above_zero, positive_int, non_negative_int,
  positive_float, parse_http_log_headers,
}
use tmpmail_fyi.Config.Load.Ports.{check_ports}
use tmpmail_fyi.Config.Load.Stages.{
  Counters, at_most, ttl_limit, load_counters, Limits, load_limits, Files, is_blank, differs,
  load_files, HttpSettings, is_log_mode, rate_limit_header, wrapped, load_http,
}
use tmpmail_fyi.Config.Load.Tls.{Acme, Domains, normalized, addresses_of, load_hosts}
use tmpmail_fyi.Config.Load.Ensures.{
  Ensures, bind-Ensures, skip-Ensures, refuse_if-Ensures, above_zero-Ensures, at_most-Ensures,
  accepted-Ensures, elim-Ensures, wrapped-Ensures, normalized-Ensures,
}
use tmpmail_fyi.Config.Load.Distinct.{
  AllOnce, collect_headers-Ensures, HasOwnPorts, check_ports-Ensures,
}

pub record IsCounters (c : Counters) : Type 0 where
  pub ttl_positive : 0 < c.event_ttl
  pub ttl_bounded : c.event_ttl ≤ ttl_limit
  pub bytes_positive : 0 < c.max_bytes

pub record IsLimits (l : Limits) : Type 0 where
  pub ttl_positive : 0 < l.ttl
  pub message_positive : 0 < l.max_message
  pub storage_positive : 0 < l.max_storage
  pub connections_positive : 0 < l.max_connections
  pub recipients_positive : 0 < l.max_recipients

pub record IsFiles (f : Files) : Type 0 where
  pub smtp_together : is_blank f.smtp_cert ≡ is_blank f.smtp_key
  pub https_together : is_blank f.https_cert ≡ is_blank f.https_key

pub record IsHttp (h : HttpSettings) : Type 0 where
  pub mode_known : is_log_mode h.log_mode ≡ true
  pub headers_once : AllOnce h.log_headers
  pub burst_positive : 0 < h.burst

differs-same : (a b : Bool) → differs a b ≡ false → a ≡ b
differs-same true true h = refl
differs-same true false h = absurd cc
differs-same false true h = absurd cc
differs-same false false h = refl

pub load_files-Ensures : (getenv : Bytes → Bytes) → Ensures IsFiles (load_files getenv)
unfolding load_files
load_files-Ensures getenv = refuse_if-Ensures _ _ _ _ λ smtp. refuse_if-Ensures _ _ _ _ λ https.
    accepted-Ensures IsFiles _
      (record { smtp_together = differs-same _ _ smtp; https_together = differs-same _ _ https })

module _ (lib : ConfigLibrary) (getenv : Bytes → Bytes) where
  positive_int-Ensures :
      {B : Type 0} (R : B → Type 0) (key fallback : Bytes) (f : ℕ → Loaded B)
      → ((n : ℕ) → 0 < n → Ensures R (f n))
      → Ensures R (positive_int lib getenv key fallback >>= f)
  unfolding positive_int
  positive_int-Ensures R key fallback f k =
      bind-Ensures (λ n. 0 < n) R (positive_int lib getenv key fallback) f
        (above_zero-Ensures _ (lib.parse_int (env getenv key fallback))) k

  pub load_counters-Ensures : Ensures IsCounters (load_counters lib getenv)
  unfolding load_counters
  load_counters-Ensures =
      skip-Ensures _ (switch lib getenv (codes "ADMIN_ENABLED") (codes "false")) _ λ admin.
        skip-Ensures _ (switch lib getenv (codes "ANALYTICS_ENABLED") (codes "false")) _
          λ analytics. bind-Ensures _ _ (above_zero _ _) _ (above_zero-Ensures _ _) λ positive p.
            bind-Ensures _ _ (at_most ttl_limit _ positive) _
              (at_most-Ensures ttl_limit positive _ p)
              λ ttl (l, b). positive_int-Ensures _ _ _ _ λ storage s.
                accepted-Ensures IsCounters _
                  (record { ttl_positive = l; ttl_bounded = b; bytes_positive = s })

  pub load_limits-Ensures : Ensures IsLimits (load_limits lib getenv)
  unfolding load_limits
  load_limits-Ensures = bind-Ensures _ _ (above_zero _ _) _ (above_zero-Ensures _ _) λ ttl t.
      positive_int-Ensures _ _ _ _ λ message m. positive_int-Ensures _ _ _ _ λ storage s.
        positive_int-Ensures _ _ _ _ λ connections c.
          skip-Ensures _ (non_negative_int _ _ _ _) _ λ per_ip.
            positive_int-Ensures _ _ _ _ λ recipients r. accepted-Ensures IsLimits _ (record {
              ttl_positive = t;
              message_positive = m;
              storage_positive = s;
              connections_positive = c;
              recipients_positive = r;
            })

  pub load_http-Ensures : Ensures IsHttp (load_http lib getenv)
  unfolding load_http parse_http_log_headers
  load_http-Ensures = skip-Ensures _ (non_negative_int _ _ _ _) _ λ requests.
      refuse_if-Ensures _ _ _ _ λ _.
        bind-Ensures _ _ (wrapped _ _) _
          (wrapped-Ensures AllOnce _ _ (
            collect_headers-Ensures lib []
              (split b',' (env getenv (codes "HTTP_LOG_HEADERS") (codes "User-Agent"))) tt))
          λ headers once. refuse_if-Ensures _ _ _ _ λ known.
            skip-Ensures _ (rate_limit_header _ _) _ λ ip_header.
              skip-Ensures _ (positive_float _ _ _ _) _ λ rps.
                positive_int-Ensures _ _ _ _ λ burst b. accepted-Ensures IsHttp _ (record {
                  mode_known = not_false _ known;
                  headers_once = once;
                  burst_positive = b;
                })
    where
      not_false : (b : Bool) → not b ≡ false → b ≡ true
      not_false true h = refl
      not_false false h = absurd cc

-- The files, the mail domain and the ACME settings that load_hosts is given, and the domains.
pub record IsHosts (lib : ConfigLibrary) (getenv : Bytes → Bytes) (admin : Bool) (files : Files)
    (acme : Acme) (d : Domains) : Type 0 where
  pub web_apart : acme.web_auto ≡ true → is_blank files.https_cert ≡ true
  pub smtp_apart : acme.smtp_auto ≡ true → is_blank files.smtp_cert ≡ true
  pub terms_accepted : (acme.web_auto || acme.smtp_auto) ≡ true → acme.accept_tos ≡ true
  pub web_is_host :
      (acme.web_auto || not (is_blank files.https_cert)) ≡ true → IsTlsHost lib.hosts d.web
  pub mail_is_host : acme.smtp_auto ≡ true → IsTlsHost lib.hosts d.mail
  pub own_ports :
      ((acme.web_auto || acme.smtp_auto) || not (is_blank files.https_cert)) ≡ true
      → HasOwnPorts lib
          (addresses_of getenv (acme.web_auto || not (is_blank files.https_cert)) admin)

nand : (a b : Bool) → (a && not b) ≡ false → a ≡ true → b ≡ true
nand true true h e = refl
nand true false h e = absurd cc
nand false b h e = absurd cc

or_false : (a b : Bool) → (a || b) ≡ false → (a ≡ false) × (b ≡ false)
or_false true b h = absurd cc
or_false false b h = (refl, h)

true_false : {X : Type 0} (b : Bool) → b ≡ false → b ≡ true → X
true_false true h e = absurd cc
true_false false h e = absurd cc

pub load_hosts-Ensures :
    (lib : ConfigLibrary) (getenv : Bytes → Bytes) (admin : Bool) (files : Files) (domain : Bytes)
    (acme : Acme)
    → Ensures (IsHosts lib getenv admin files acme) (load_hosts lib getenv admin files domain acme)
unfolding load_hosts
load_hosts-Ensures lib getenv admin files domain acme = refuse_if-Ensures _ _ _ _ λ web_apart.
    bind-Ensures _ _ (normalized _ _ _ _) _ (normalized-Ensures lib _ _ _) λ web (web_host, _).
      elim-Ensures _ ((acme.web_auto || acme.smtp_auto) || not (is_blank files.https_cert)) _ _
        (λ _. refuse_if-Ensures _ _ _ _ λ terms. refuse_if-Ensures _ _ _ _ λ smtp_apart.
          bind-Ensures _ _ (normalized _ _ _ _) _ (normalized-Ensures lib _ _ _)
            λ mail (mail_host, _).
              bind-Ensures _ _ (normalized _ _ _ _) _ (normalized-Ensures lib _ _ _)
                λ again (again_host, kept).
                  bind-Ensures _ _ (check_ports _ _ _) _ (check_ports-Ensures lib [] _)
                    λ _ (_, own). accepted-Ensures (IsHosts lib getenv admin files acme) _ (record {
                      web_apart = nand _ _ web_apart;
                      smtp_apart = nand _ _ smtp_apart;
                      terms_accepted = nand _ _ terms;
                      web_is_host = λ https. elim (Bool-cases acme.web_auto) [
                        | inl e ↦ again_host e
                        | inr e ↦ subst (IsTlsHost lib.hosts) (sym (kept e)) (web_host https)
                      ];
                      mail_is_host = mail_host;
                      own_ports = λ _. own;
                    }))
        (λ plain. accepted-Ensures (IsHosts lib getenv admin files acme) _ (record {
          web_apart = nand _ _ web_apart;
          smtp_apart = λ e.
              let (auto_off, _) = or_false _ _ plain in
              let (_, smtp_off) = or_false _ _ auto_off in true_false _ smtp_off e;
          terms_accepted = λ e. let (auto_off, _) = or_false _ _ plain in true_false _ auto_off e;
          web_is_host = web_host;
          mail_is_host = λ e.
              let (auto_off, _) = or_false _ _ plain in
              let (_, smtp_off) = or_false _ _ auto_off in true_false _ smtp_off e;
          own_ports = λ e. true_false _ plain e;
        }))
