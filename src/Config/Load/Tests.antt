-- ===== src/Config/Load/Tests.antt =====
-- Loading concrete settings.
use tmpmail_fyi.Common.{
  if◌then◌else◌, Bytes, codes, eq_bytes, trim_space, cut_after, split, ℤ, pos, ℕ, ◌+◌, ◌-◌, ◌*◌,
  ◌≡◌, refl, Bool, true, false, Option, none, some, [], ◌∷◌, ◌++◌,
}
use tmpmail_fyi.Config.{Config}
use tmpmail_fyi.Config.Host.{HostLibrary, normalize_tls_host}
use tmpmail_fyi.Config.Host.Names.{normalize_tls_host_idem}
use tmpmail_fyi.Config.Load.{load_config}
use tmpmail_fyi.Config.Load.Values.{
  ◌>>=◌, ConfigLibrary, refuse_if, env, parsed, switch, above_zero, positive_int, from_zero,
  non_negative_int, float_read, positive_float, valid_header_name, collect_headers,
  parse_http_log_headers, accepted,
}
use tmpmail_fyi.Config.Load.Ports.{port_of, check_ports}
use tmpmail_fyi.Config.Load.Stages.{
  at_most, load_counters, load_limits, load_files, rate_limit_header, wrapped, load_http,
}
use tmpmail_fyi.Config.Load.Tls.{load_acme, normalized, load_hosts}
use tmpmail_fyi.Config.Load.Valid.{IsValid, load_config-IsValid}

abbrev decimal : ℕ → Bytes → ℕ
decimal n [] = n
decimal n (c ∷ s) = decimal (10 * n + (c - b'0')) s

abbrev bool_of : Bytes → Option Bool
bool_of s =
    if eq_bytes s (codes "true")
    then some true
    else if eq_bytes s (codes "false")
    then some false
    else none

abbrev duration_of : Bytes → Option ℤ
duration_of s = some (pos 3_600_000_000_000)

-- Host names of ASCII are left as they are.
abbrev plain_hosts : HostLibrary
plain_hosts = record { to_ascii = λ s. some s; is_ip = λ s. false }

abbrev plain : ConfigLibrary
plain = record {
  parse_bool = bool_of;
  parse_duration = duration_of;
  parse_int = λ s. some (pos (decimal 0 s));
  is_positive = λ s. some true;
  canonical_header_key = λ s. s;
  split_port = λ s. some (cut_after b':' s);
  join = λ s t. s ++ b'/' ∷ t;
  hosts = plain_hosts;
}

-- Automatic TLS for the web.
abbrev settings : Bytes → Bytes
settings key =
    if eq_bytes key (codes "MAIL_DOMAIN")
    then codes " Mail.Test"
    else if eq_bytes key (codes "AUTO_TLS_WEB_ENABLED")
    then codes "true"
    else if eq_bytes key (codes "ACME_ACCEPT_TOS")
    then codes "true"
    else []

abbrev settings_read : Config
settings_read = record {
  auto_tls_enabled = true;
  auto_tls_web_enabled = true;
  auto_tls_smtp_enabled = false;
  web_domain = codes "mail.test";
  https_addr = codes ":8443";
  https_tls_cert_file = [];
  https_tls_key_file = [];
  acme_email = [];
  acme_accept_tos = true;
  acme_staging = false;
  acme_debug = false;
  acme_cache_dir = codes "/data/acme";
  admin_enabled = false;
  admin_addr = codes "127.0.0.1:8081";
  analytics_enabled = false;
  analytics_event_ttl = 3_600_000_000_000;
  analytics_max_storage_bytes = 1_073_741_824;
  mail_domain = codes "mail.test";
  data_dir = codes "/data";
  smtp_addr = codes ":25";
  smtp_tls_cert_file = [];
  smtp_tls_key_file = [];
  http_addr = codes ":8080";
  metrics_addr = codes "127.0.0.1:9090";
  message_ttl = 3_600_000_000_000;
  max_message_bytes = 2_097_152;
  max_storage_bytes = 21_474_836_480;
  max_smtp_connections = 100;
  max_smtp_connections_per_ip = 10;
  max_smtp_recipients = 5;
  max_http_requests = 512;
  metrics_enabled = false;
  http_access_log_mode = codes "errors";
  http_log_headers = codes "User-Agent" ∷ [];
  http_rate_limit_rps = codes "10";
  http_rate_limit_burst = 50;
  http_rate_limit_ip_header = [];
}

settings_loaded : load_config plain settings ≡ accepted settings_read
unfolding load_config load_counters load_limits load_files load_http load_acme load_hosts ◌>>=◌
    refuse_if parsed switch above_zero positive_int from_zero non_negative_int positive_float
    float_read env at_most rate_limit_header wrapped normalized parse_http_log_headers
    normalize_tls_host check_ports eq_bytes trim_space split collect_headers port_of
    valid_header_name cut_after
settings_loaded = refl

load_config-IsValid_example : IsValid plain settings_read
load_config-IsValid_example = load_config-IsValid plain settings settings_read settings_loaded

host_accepted : normalize_tls_host plain_hosts (codes " Mail.Test. ") ≡ some (codes "mail.test")
unfolding normalize_tls_host
host_accepted = refl

normalize_tls_host_idem_example :
    normalize_tls_host plain_hosts (codes "mail.test") ≡ some (codes "mail.test")
normalize_tls_host_idem_example =
    normalize_tls_host_idem plain_hosts (codes " Mail.Test. ") (codes "mail.test")
      (λ host ascii e. refl) host_accepted
