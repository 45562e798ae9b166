-- ===== src/Config/Load/Stages.antt =====
-- The parts of LoadConfig of internal/app/config.go, in the order of its text.
use tmpmail_fyi.Common.{
  leb, if◌then◌else◌, Bytes, codes, eq_bytes, to_lower, trim_space, contains_any, ℕ, Bool, true,
  false, not, ◌||◌, List, [], ◌∷◌, ◌++◌,
}
use tmpmail_fyi.Config.Load.Values.{
  ConfigLibrary, Loaded, ◌>>=◌, ◌>>◌, refuse_if, env, switch, above_zero, positive_int,
  non_negative_int, positive_float, valid_header_name, parse_http_log_headers, accepted, refused,
}

pub record Counters : Type 0 where
  pub admin_enabled : Bool
  pub analytics_enabled : Bool
  pub event_ttl : ℕ
  pub max_bytes : ℕ

unfoldable pub at_most : ℕ → Bytes → ℕ → Loaded ℕ
at_most n message d = if leb d n then accepted d else refused message

abbrev pub ttl_limit : ℕ
ttl_limit = 2_592_000_000_000_000

unfoldable pub load_counters : ConfigLibrary → (Bytes → Bytes) → Loaded Counters
load_counters lib getenv = do
  let ttl_text = codes "ANALYTICS_EVENT_TTL must be a positive duration no greater than 720h"
  admin ← switch lib getenv (codes "ADMIN_ENABLED") (codes "false")
  analytics ← switch lib getenv (codes "ANALYTICS_ENABLED") (codes "false")
  positive ←
      above_zero ttl_text
        (lib.parse_duration (env getenv (codes "ANALYTICS_EVENT_TTL") (codes "720h")))
  ttl ← at_most ttl_limit ttl_text positive
  storage ← positive_int lib getenv (codes "ANALYTICS_MAX_STORAGE_BYTES") (codes "1073741824")
  accepted (record {
    admin_enabled = admin;
    analytics_enabled = analytics;
    event_ttl = ttl;
    max_bytes = storage;
  })

pub record Limits : Type 0 where
  pub ttl : ℕ
  pub max_message : ℕ
  pub max_storage : ℕ
  pub max_connections : ℕ
  pub max_per_ip : ℕ
  pub max_recipients : ℕ

unfoldable pub load_limits : ConfigLibrary → (Bytes → Bytes) → Loaded Limits
load_limits lib getenv = do
  ttl ←
      above_zero (codes "MESSAGE_TTL must be a positive duration")
        (lib.parse_duration (env getenv (codes "MESSAGE_TTL") (codes "1h")))
  max_message ← positive_int lib getenv (codes "MAX_MESSAGE_BYTES") (codes "2097152")
  max_storage ← positive_int lib getenv (codes "MAX_STORAGE_BYTES") (codes "21474836480")
  connections ← positive_int lib getenv (codes "SMTP_MAX_CONNECTIONS") (codes "100")
  per_ip ← non_negative_int lib getenv (codes "SMTP_MAX_CONNECTIONS_PER_IP") (codes "10")
  recipients ← positive_int lib getenv (codes "SMTP_MAX_RECIPIENTS") (codes "5")
  accepted (record {
    ttl = ttl;
    max_message = max_message;
    max_storage = max_storage;
    max_connections = connections;
    max_per_ip = per_ip;
    max_recipients = recipients;
  })

pub record Files : Type 0 where
  pub smtp_cert : Bytes
  pub smtp_key : Bytes
  pub https_cert : Bytes
  pub https_key : Bytes

abbrev pub is_blank : Bytes → Bool
is_blank [] = true
is_blank (c ∷ s) = false

abbrev pub differs : Bool → Bool → Bool
differs true b = not b
differs false b = b

unfoldable pub load_files : (Bytes → Bytes) → Loaded Files
load_files getenv = do
  let cert = trim_space (getenv (codes "SMTP_TLS_CERT_FILE"))
  let key = trim_space (getenv (codes "SMTP_TLS_KEY_FILE"))
  refuse_if (differs (is_blank cert) (is_blank key))
      (codes "SMTP_TLS_CERT_FILE and SMTP_TLS_KEY_FILE must be set together")
  let https_cert = trim_space (getenv (codes "HTTPS_TLS_CERT_FILE"))
  let https_key = trim_space (getenv (codes "HTTPS_TLS_KEY_FILE"))
  refuse_if (differs (is_blank https_cert) (is_blank https_key))
      (codes "HTTPS_TLS_CERT_FILE and HTTPS_TLS_KEY_FILE must be set together")
  accepted
      (record { smtp_cert = cert; smtp_key = key; https_cert = https_cert; https_key = https_key })

pub record HttpSettings : Type 0 where
  pub max_requests : ℕ
  pub domain : Bytes
  pub log_headers : List Bytes
  pub log_mode : Bytes
  pub ip_header : Bytes
  pub rps : Bytes
  pub burst : ℕ

abbrev pub is_log_mode : Bytes → Bool
is_log_mode mode =
    eq_bytes mode (codes "all") || eq_bytes mode (codes "errors") || eq_bytes mode (codes "off")

-- The header of the client's address, if there is one.
unfoldable pub rate_limit_header : ConfigLibrary → Bytes → Loaded Bytes
rate_limit_header lib header =
    if is_blank header
    then accepted header
    else if not (valid_header_name header)
    then refused (codes "HTTP_RATE_LIMIT_IP_HEADER is not a valid HTTP header name")
    else accepted (lib.canonical_header_key header)

-- An error under the name of its setting.
unfoldable pub wrapped {ℓ} : {A : Type ℓ} → Bytes → Loaded A → Loaded A
wrapped key (accepted a) = accepted a
wrapped key (refused e) = refused (key ++ codes ": " ++ e)

unfoldable pub load_http : ConfigLibrary → (Bytes → Bytes) → Loaded HttpSettings
load_http lib getenv = do
  max_requests ← non_negative_int lib getenv (codes "HTTP_MAX_CONCURRENT_REQUESTS") (codes "512")
  let domain = to_lower (trim_space (getenv (codes "MAIL_DOMAIN")))
  refuse_if (is_blank domain || contains_any domain (codes "@ /\\"))
      (codes "MAIL_DOMAIN must be a domain name")
  headers ←
      wrapped (codes "HTTP_LOG_HEADERS")
        (parse_http_log_headers lib (env getenv (codes "HTTP_LOG_HEADERS") (codes "User-Agent")))
  let mode = to_lower (env getenv (codes "HTTP_ACCESS_LOG_MODE") (codes "errors"))
  refuse_if (not (is_log_mode mode)) (codes "HTTP_ACCESS_LOG_MODE must be all, errors, or off")
  ip_header ← rate_limit_header lib (trim_space (getenv (codes "HTTP_RATE_LIMIT_IP_HEADER")))
  rps ← positive_float lib getenv (codes "HTTP_RATE_LIMIT_RPS") (codes "10")
  burst ← positive_int lib getenv (codes "HTTP_RATE_LIMIT_BURST") (codes "50")
  accepted (record {
    max_requests = max_requests;
    domain = domain;
    log_headers = headers;
    log_mode = mode;
    ip_header = ip_header;
    rps = rps;
    burst = burst;
  })
