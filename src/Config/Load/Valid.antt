-- ===== src/Config/Load/Valid.antt =====
-- The settings that LoadConfig of internal/app/config.go returns.
use tmpmail_fyi.Common.{
  Bytes, codes, ◌≤◌, ◌<◌, ◌≡◌, refl, subst, Bool, true, not, ◌||◌, List, ◌∷◌, ◌++◌,
}
use tmpmail_fyi.Config.{Config}
use tmpmail_fyi.Config.Host.{}
use tmpmail_fyi.Config.Host.Names.{IsTlsHost}
use tmpmail_fyi.Config.Load.{load_config}
use tmpmail_fyi.Config.Load.Values.{ConfigLibrary, accepted}
use tmpmail_fyi.Config.Load.Ports.{Address}
use tmpmail_fyi.Config.Load.Stages.{
  ttl_limit, load_counters, load_limits, is_blank, load_files, is_log_mode, load_http,
}
use tmpmail_fyi.Config.Load.Tls.{load_acme, address, one_if, load_hosts}
use tmpmail_fyi.Config.Load.Ensures.{Ensures, bind-Ensures, skip-Ensures, accepted-Ensures}
use tmpmail_fyi.Config.Load.Distinct.{AllOnce, HasOwnPorts}
use tmpmail_fyi.Config.Load.Accepted.{
  load_files-Ensures, load_counters-Ensures, load_limits-Ensures, load_http-Ensures,
  load_hosts-Ensures,
}

abbrev serves_https : Config → Bool
serves_https cfg = cfg.auto_tls_web_enabled || not (is_blank cfg.https_tls_cert_file)

-- The addresses that are listened on.
abbrev listeners : Config → List Address
listeners cfg =
    address (codes "HTTP_ADDR") cfg.http_addr
    ∷ address (codes "SMTP_ADDR") cfg.smtp_addr
    ∷ (one_if (serves_https cfg) (address (codes "HTTPS_ADDR") cfg.https_addr)
        ++ one_if cfg.metrics_enabled (address (codes "METRICS_ADDR") cfg.metrics_addr)
        ++ one_if cfg.admin_enabled (address (codes "ADMIN_ADDR") cfg.admin_addr))

-- Settings that the service can run with.
pub record IsValid (lib : ConfigLibrary) (cfg : Config) : Type 0 where
  pub event_ttl_positive : 0 < cfg.analytics_event_ttl
  pub event_ttl_bounded : cfg.analytics_event_ttl ≤ ttl_limit
  pub analytics_positive : 0 < cfg.analytics_max_storage_bytes
  pub ttl_positive : 0 < cfg.message_ttl
  pub message_positive : 0 < cfg.max_message_bytes
  pub storage_positive : 0 < cfg.max_storage_bytes
  pub connections_positive : 0 < cfg.max_smtp_connections
  pub recipients_positive : 0 < cfg.max_smtp_recipients
  pub burst_positive : 0 < cfg.http_rate_limit_burst
  pub mode_known : is_log_mode cfg.http_access_log_mode ≡ true
  pub headers_once : AllOnce cfg.http_log_headers
  pub smtp_files : is_blank cfg.smtp_tls_cert_file ≡ is_blank cfg.smtp_tls_key_file
  pub https_files : is_blank cfg.https_tls_cert_file ≡ is_blank cfg.https_tls_key_file
  pub auto_tls : cfg.auto_tls_enabled ≡ (cfg.auto_tls_web_enabled || cfg.auto_tls_smtp_enabled)
  pub terms_accepted : cfg.auto_tls_enabled ≡ true → cfg.acme_accept_tos ≡ true
  pub web_apart : cfg.auto_tls_web_enabled ≡ true → is_blank cfg.https_tls_cert_file ≡ true
  pub smtp_apart : cfg.auto_tls_smtp_enabled ≡ true → is_blank cfg.smtp_tls_cert_file ≡ true
  pub web_is_host : serves_https cfg ≡ true → IsTlsHost lib.hosts cfg.web_domain
  pub mail_is_host : cfg.auto_tls_smtp_enabled ≡ true → IsTlsHost lib.hosts cfg.mail_domain
  pub own_ports :
      (cfg.auto_tls_enabled || not (is_blank cfg.https_tls_cert_file)) ≡ true
      → HasOwnPorts lib (listeners cfg)

load_config-Ensures :
    (lib : ConfigLibrary) (getenv : Bytes → Bytes) → Ensures (IsValid lib) (load_config lib getenv)
unfolding load_config
load_config-Ensures lib getenv =
    bind-Ensures _ _ (load_counters _ _) _ (load_counters-Ensures lib getenv) λ counters c.
      bind-Ensures _ _ (load_limits _ _) _ (load_limits-Ensures lib getenv) λ limits l.
        bind-Ensures _ _ (load_files _) _ (load_files-Ensures getenv) λ files f.
          bind-Ensures _ _ (load_http _ _) _ (load_http-Ensures lib getenv) λ http h.
            skip-Ensures _ (load_acme _ _) _ λ acme.
              bind-Ensures _ _ (load_hosts _ _ _ _ _ _) _
                (load_hosts-Ensures lib getenv counters.admin_enabled files http.domain acme)
                λ domains d. accepted-Ensures (IsValid lib) _ (record {
                  event_ttl_positive = c.ttl_positive;
                  event_ttl_bounded = c.ttl_bounded;
                  analytics_positive = c.bytes_positive;
                  ttl_positive = l.ttl_positive;
                  message_positive = l.message_positive;
                  storage_positive = l.storage_positive;
                  connections_positive = l.connections_positive;
                  recipients_positive = l.recipients_positive;
                  burst_positive = h.burst_positive;
                  mode_known = h.mode_known;
                  headers_once = h.headers_once;
                  smtp_files = f.smtp_together;
                  https_files = f.https_together;
                  auto_tls = refl;
                  terms_accepted = d.terms_accepted;
                  web_apart = d.web_apart;
                  smtp_apart = d.smtp_apart;
                  web_is_host = d.web_is_host;
                  mail_is_host = d.mail_is_host;
                  own_ports = d.own_ports;
                })

-- The settings that are accepted, whatever the environment holds, are valid: the lifetimes of messages
-- and events, the sizes of a message and of both stores, the number of SMTP connections in total, that
-- of recipients and the burst of HTTP requests are above zero (the other limits are not spoken of);
-- files of a certificate come in pairs and never beside automatic TLS for the same service; automatic
-- TLS has its terms accepted and certificate host names; and with automatic TLS or an HTTPS
-- certificate file the listeners have different ports.
pub load_config-IsValid :
    (lib : ConfigLibrary) (getenv : Bytes → Bytes) (cfg : Config)
    → load_config lib getenv ≡ accepted cfg
    → IsValid lib cfg
unfolding Ensures
load_config-IsValid lib getenv cfg e =
    subst (Ensures (IsValid lib)) e (load_config-Ensures lib getenv)
