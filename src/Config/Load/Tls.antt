-- ===== src/Config/Load/Tls.antt =====
-- The TLS settings and the ports: the last parts of LoadConfig of internal/app/config.go.
use tmpmail_fyi.Common.{
  Bytes, codes, eq_bytes, to_lower, trim_space, Bool, true, false, not, ◌&&◌, ◌||◌, List, [], ◌∷◌,
  ◌++◌,
}
use tmpmail_fyi.Config.{Config}
use tmpmail_fyi.Config.Host.{trim_dot, normalize_tls_host}
use tmpmail_fyi.Config.Load.Values.{
  ConfigLibrary, Loaded, ◌>>=◌, ◌>>◌, refuse_if, env, parsed, switch, accepted,
}
use tmpmail_fyi.Config.Load.Ports.{Address, check_ports}
use tmpmail_fyi.Config.Load.Stages.{Counters, Limits, Files, is_blank, HttpSettings}

pub record Acme : Type 0 where
  pub web_auto : Bool
  pub smtp_auto : Bool
  pub accept_tos : Bool
  pub staging : Bool
  pub debug : Bool

-- strconv.FormatBool.
abbrev pub format_bool : Bool → Bytes
format_bool true = codes "true"
format_bool false = codes "false"

unfoldable pub load_acme : ConfigLibrary → (Bytes → Bytes) → Loaded Acme
load_acme lib getenv = do
  auto ← switch lib getenv (codes "AUTO_TLS_ENABLED") (codes "false")
  web_auto ← switch lib getenv (codes "AUTO_TLS_WEB_ENABLED") (format_bool auto)
  smtp_auto ← switch lib getenv (codes "AUTO_TLS_SMTP_ENABLED") (format_bool auto)
  accept_tos ← switch lib getenv (codes "ACME_ACCEPT_TOS") (codes "false")
  staging ← switch lib getenv (codes "ACME_STAGING") (codes "false")
  debug ← switch lib getenv (codes "ACME_DEBUG") (codes "false")
  accepted (record {
    web_auto = web_auto;
    smtp_auto = smtp_auto;
    accept_tos = accept_tos;
    staging = staging;
    debug = debug;
  })

pub record Domains : Type 0 where
  pub web : Bytes
  pub mail : Bytes

-- The name as it is, or normalized if it is to be.
unfoldable pub normalized : ConfigLibrary → Bytes → Bool → Bytes → Loaded Bytes
normalized lib key false host = accepted host
normalized lib key true host =
    parsed (key ++ codes ": invalid certificate hostname " ++ trim_dot (to_lower (trim_space host)))
      (normalize_tls_host lib.hosts host)

abbrev pub https_addr_of : (Bytes → Bytes) → Bytes
https_addr_of getenv = env getenv (codes "HTTPS_ADDR") (codes ":8443")

abbrev pub http_addr_of : (Bytes → Bytes) → Bytes
http_addr_of getenv = env getenv (codes "HTTP_ADDR") (codes ":8080")

abbrev pub smtp_addr_of : (Bytes → Bytes) → Bytes
smtp_addr_of getenv = env getenv (codes "SMTP_ADDR") (codes ":25")

abbrev pub metrics_addr_of : (Bytes → Bytes) → Bytes
metrics_addr_of getenv = env getenv (codes "METRICS_ADDR") (codes "127.0.0.1:9090")

abbrev pub admin_addr_of : (Bytes → Bytes) → Bytes
admin_addr_of getenv = env getenv (codes "ADMIN_ADDR") (codes "127.0.0.1:8081")

abbrev pub metrics_on : (Bytes → Bytes) → Bool
metrics_on getenv = eq_bytes (env getenv (codes "METRICS_ENABLED") (codes "false")) (codes "true")

abbrev pub address : Bytes → Bytes → Address
address name addr = record { name = name; addr = addr }

abbrev pub one_if : Bool → Address → List Address
one_if true a = a ∷ []
one_if false a = []

-- The addresses that the service listens on.
abbrev pub addresses_of : (Bytes → Bytes) → (https admin : Bool) → List Address
addresses_of getenv https admin =
    address (codes "HTTP_ADDR") (http_addr_of getenv)
    ∷ address (codes "SMTP_ADDR") (smtp_addr_of getenv)
    ∷ (one_if https (address (codes "HTTPS_ADDR") (https_addr_of getenv))
        ++ one_if (metrics_on getenv) (address (codes "METRICS_ADDR") (metrics_addr_of getenv))
        ++ one_if admin (address (codes "ADMIN_ADDR") (admin_addr_of getenv)))

-- The checks of the TLS settings, and the domains that come of them.
unfoldable pub load_hosts :
    ConfigLibrary → (Bytes → Bytes) → Bool → Files → Bytes → Acme → Loaded Domains
load_hosts lib getenv admin files domain acme = do
  let has_cert = not (is_blank files.https_cert)
  let https = acme.web_auto || has_cert
  let auto = acme.web_auto || acme.smtp_auto
  refuse_if (acme.web_auto && has_cert)
      (codes "automatic web TLS cannot be combined with HTTPS_TLS_CERT_FILE/HTTPS_TLS_KEY_FILE")
  web ← normalized lib (codes "WEB_DOMAIN") https (env getenv (codes "WEB_DOMAIN") domain)
  elim (auto || has_cert) [
    | false ↦ accepted (record { web = web; mail = domain })
    | true ↦ do
      refuse_if (auto && not acme.accept_tos) (codes "automatic TLS requires ACME_ACCEPT_TOS=true")
      refuse_if (acme.smtp_auto && not (is_blank files.smtp_cert))
          (codes "automatic SMTP TLS cannot be combined with SMTP_TLS_CERT_FILE/SMTP_TLS_KEY_FILE")
      mail ← normalized lib (codes "MAIL_DOMAIN") acme.smtp_auto domain
      again ← normalized lib (codes "WEB_DOMAIN") acme.web_auto web
      check_ports lib [] (addresses_of getenv https admin)
      accepted (record { web = again; mail = mail })
  ]

-- The record that is returned.
abbrev pub assemble :
    ConfigLibrary
    → (Bytes → Bytes)
    → Counters
    → Limits
    → Files
    → HttpSettings
    → Acme
    → Domains
    → Config
assemble lib getenv counters limits files http acme domains =
    let data_dir = env getenv (codes "DATA_DIR") (codes "/data") in
    record {
      auto_tls_enabled = acme.web_auto || acme.smtp_auto;
      auto_tls_web_enabled = acme.web_auto;
      auto_tls_smtp_enabled = acme.smtp_auto;
      web_domain = domains.web;
      https_addr = https_addr_of getenv;
      https_tls_cert_file = files.https_cert;
      https_tls_key_file = files.https_key;
      acme_email = trim_space (getenv (codes "ACME_EMAIL"));
      acme_accept_tos = acme.accept_tos;
      acme_staging = acme.staging;
      acme_debug = acme.debug;
      acme_cache_dir = env getenv (codes "ACME_CACHE_DIR") (lib.join data_dir (codes "acme"));
      admin_enabled = counters.admin_enabled;
      admin_addr = admin_addr_of getenv;
      analytics_enabled = counters.analytics_enabled;
      analytics_event_ttl = counters.event_ttl;
      analytics_max_storage_bytes = counters.max_bytes;
      mail_domain = domains.mail;
      data_dir = data_dir;
      smtp_addr = smtp_addr_of getenv;
      smtp_tls_cert_file = files.smtp_cert;
      smtp_tls_key_file = files.smtp_key;
      http_addr = http_addr_of getenv;
      metrics_addr = metrics_addr_of getenv;
      message_ttl = limits.ttl;
      max_message_bytes = limits.max_message;
      max_storage_bytes = limits.max_storage;
      max_smtp_connections = limits.max_connections;
      max_smtp_connections_per_ip = limits.max_per_ip;
      max_smtp_recipients = limits.max_recipients;
      max_http_requests = http.max_requests;
      metrics_enabled = metrics_on getenv;
      http_access_log_mode = http.log_mode;
      http_log_headers = http.log_headers;
      http_rate_limit_rps = http.rps;
      http_rate_limit_burst = http.burst;
      http_rate_limit_ip_header = http.ip_header;
    }
