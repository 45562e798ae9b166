-- ===== src/Config.antt =====
-- The service's settings: internal/app/config.go. Durations are counted in nanoseconds. The
-- request rate, a float64 of the program, is kept as the text that it was read from.
pub mod Host
pub mod Load
use tmpmail_fyi.Common.{Bytes, ℕ, Bool, List}

pub record Config : Type 0 where
  pub auto_tls_enabled : Bool
  pub auto_tls_web_enabled : Bool
  pub auto_tls_smtp_enabled : Bool
  pub web_domain : Bytes
  pub https_addr : Bytes
  pub https_tls_cert_file : Bytes
  pub https_tls_key_file : Bytes
  pub acme_email : Bytes
  pub acme_accept_tos : Bool
  pub acme_staging : Bool
  pub acme_debug : Bool
  pub acme_cache_dir : Bytes
  pub admin_enabled : Bool
  pub admin_addr : Bytes
  pub analytics_enabled : Bool
  pub analytics_event_ttl : ℕ
  pub analytics_max_storage_bytes : ℕ
  pub mail_domain : Bytes
  pub data_dir : Bytes
  pub smtp_addr : Bytes
  pub smtp_tls_cert_file : Bytes
  pub smtp_tls_key_file : Bytes
  pub http_addr : Bytes
  pub metrics_addr : Bytes
  pub message_ttl : ℕ
  pub max_message_bytes : ℕ
  pub max_storage_bytes : ℕ
  pub max_smtp_connections : ℕ
  pub max_smtp_connections_per_ip : ℕ
  pub max_smtp_recipients : ℕ
  pub max_http_requests : ℕ
  pub metrics_enabled : Bool
  pub http_access_log_mode : Bytes
  pub http_log_headers : List Bytes
  pub http_rate_limit_rps : Bytes
  pub http_rate_limit_burst : ℕ
  pub http_rate_limit_ip_header : Bytes
