-- ===== src/Samples.antt =====
-- Data that the tests of several modules share.
use tmpmail_fyi.Common.{codes, pos, ◌+◌, refl, false, none, some, [], ◌∷◌, arith}
use tmpmail_fyi.Config.{Config}
use tmpmail_fyi.Store.State.{Row, Store}
use tmpmail_fyi.Store.Tables.{find_blob, find_row}
use tmpmail_fyi.Store.Tables.Rows.{refs}
use tmpmail_fyi.Store.Tables.Blobs.{recorded_refs}
use tmpmail_fyi.Store.Post.{}
use tmpmail_fyi.Store.Valid.{charged, IsValid}
use tmpmail_fyi.Store.Evict.{}
use tmpmail_fyi.Store.Evict.Bounds.{}
use tmpmail_fyi.Store.Save.{MailParser, Draws}
use tmpmail_fyi.Store.Save.Deferred.{}
use tmpmail_fyi.Store.Save.Correct.{}
use tmpmail_fyi.Store.Pending.{}
use tmpmail_fyi.Store.Pending.Keeps.{}
use tmpmail_fyi.Store.Pending.Drain.{}
use tmpmail_fyi.Store.Cleanup.{}
use tmpmail_fyi.Store.Cleanup.Complete.{}

abbrev pub small : Config
small = record {
  auto_tls_enabled = false;
  auto_tls_web_enabled = false;
  auto_tls_smtp_enabled = false;
  web_domain = codes "mail.test";
  https_addr = codes ":8443";
  https_tls_cert_file = [];
  https_tls_key_file = [];
  acme_email = [];
  acme_accept_tos = false;
  acme_staging = false;
  acme_debug = false;
  acme_cache_dir = codes "/data/acme";
  admin_enabled = false;
  admin_addr = codes "127.0.0.1:8081";
  analytics_enabled = false;
  analytics_event_ttl = 1_000_000_000;
  analytics_max_storage_bytes = 1000;
  mail_domain = codes "mail.test";
  data_dir = codes "/data";
  smtp_addr = codes ":25";
  smtp_tls_cert_file = [];
  smtp_tls_key_file = [];
  http_addr = codes ":8080";
  metrics_addr = codes "127.0.0.1:9090";
  message_ttl = 60_000_000_000;
  max_message_bytes = 4;
  max_storage_bytes = 6;
  max_smtp_connections = 2;
  max_smtp_connections_per_ip = 1;
  max_smtp_recipients = 5;
  max_http_requests = 2;
  metrics_enabled = false;
  http_access_log_mode = codes "errors";
  http_log_headers = [];
  http_rate_limit_rps = codes "10";
  http_rate_limit_burst = 50;
  http_rate_limit_ip_header = [];
}

abbrev pub plain_mail : MailParser
plain_mail = record { read_header = λ raw. none; decode_header = λ text. some text }

abbrev pub draws : Draws
draws = record {
  now = 100_000_000_000;
  before = 100_000_000_000;
  settled = 100_000_000_000;
  blob_id = codes "b2";
  temp_id = codes "t2";
  message_id = λ i. b'm' ∷ (i + 48) ∷ [];
  written = 0;
}

-- One message of four bytes, which has expired.
abbrev pub old_row : Row
old_row = record {
  id = codes "m9";
  recipient = codes "a@mail.test";
  sender = codes "s";
  subject = codes "x";
  received_at = 1;
  expires_at = 61;
  size = 4;
  blob_id = codes "b1";
}

abbrev pub old_store : Store
old_store = record {
  db = record {
    messages = old_row ∷ [];
    blobs = record { id = codes "b1"; path = codes "/m/b1.eml"; size = 4; ref_count = 1 } ∷ [];
    pending = [];
  };
  files = record { path = codes "/m/b1.eml"; content = codes "mail" } ∷ [];
  stored_bytes = pos 4;
  stored_messages = pos 1;
  storage_fault = false;
  pending_cursor = [];
  cleanup_error_count = 0;
  last_cleanup = none;
}

pub old_store-IsValid : IsValid old_store
unfolding find_row find_blob refs recorded_refs charged
old_store-IsValid = record {
  tables = record {
    rows_unique = (refl, tt);
    blobs_unique = (refl, tt);
    queue_ordered = tt;
    counted = λ k. ground arith;
    held = (omega arith, tt);
  };
  messages_booked = refl;
  bytes_booked = λ _. refl;
}
