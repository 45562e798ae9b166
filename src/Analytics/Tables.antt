-- ===== src/Analytics/Tables.antt =====
-- The database of the analytics: writeBatch, prune, usage and maintain of internal/app/analytics.go.
pub mod Transaction
pub mod Insert
pub mod Batch
pub mod Oldest
pub mod Evicted
use tmpmail_fyi.Common.{
  ltb, leb, ◌==◌, if◌then◌else◌, length, take, keep_if, Bytes, codes, eq_bytes, lt_bytes, ℕ, zero,
  suc, ◌+◌, ◌-◌, ◌/◌, min, Bool, true, false, not, ◌&&◌, ◌||◌, Option, none, some, List, [], ◌∷◌,
  ◌++◌, map,
}
use tmpmail_fyi.Config.{Config}
use tmpmail_fyi.Analytics.State.{
  AnalyticsEvent, Row, Tables, Analytics, M, ◌>>=◌, ◌>>◌, pure, get, modify, answer, attempt,
  delivery_columns, rejection_columns, request_columns, done,
}

abbrev pub millis : ℕ → ℕ
millis t = t / 1_000_000

-- INSERT OR IGNORE: a row whose id is there already is left.
unfoldable pub has_id : Bytes → List Row → Bool
has_id key [] = false
has_id key (r ∷ rows) = if eq_bytes r.id key then true else has_id key rows

unfoldable pub insert_or_ignore : Row → List Row → List Row
unfolding has_id
insert_or_ignore row rows = if has_id row.id rows then rows else row ∷ rows

abbrev pub is_delivery : AnalyticsEvent → Bool
is_delivery e = eq_bytes e.kind (codes "delivery")

abbrev pub is_rejection : AnalyticsEvent → Bool
is_rejection e = eq_bytes e.kind (codes "smtpRejected")

abbrev pub delivery_row : ℕ → AnalyticsEvent → Row
delivery_row t e = record {
  id = e.id;
  timestamp = millis t;
  columns =
      delivery_columns e.recipient e.sender e.sender_domain e.ip e.size
        (if e.duration_known then some e.duration else none);
}

abbrev pub rejection_row : ℕ → AnalyticsEvent → Row
rejection_row t e = record {
  id = e.id;
  timestamp = millis t;
  columns = rejection_columns e.recipient e.sender e.sender_domain e.ip e.status e.duration e.route;
}

abbrev pub request_row : ℕ → AnalyticsEvent → Row
request_row t e = record {
  id = e.id;
  timestamp = millis t;
  columns =
      request_columns e.recipient e.ip e.user_agent e.route e.method e.status e.duration
        e.message_id e.polling;
}

unfoldable pub insert_event : ℕ → AnalyticsEvent → Tables → Tables
unfolding insert_or_ignore eq_bytes
insert_event t e tables =
    if is_delivery e
    then record tables { deliveries = insert_or_ignore (delivery_row t e) tables.deliveries }
    else if is_rejection e
    then record tables {
      smtp_rejections = insert_or_ignore (rejection_row t e) tables.smtp_rejections;
    }
    else record tables { http_requests = insert_or_ignore (request_row t e) tables.http_requests }

-- A time that was never set is before every other.
abbrev pub is_expired : ℕ → Option ℕ → Bool
is_expired cutoff none = true
is_expired cutoff (some t) = ltb t cutoff

abbrev pub time_of : Option ℕ → ℕ
time_of none = 0
time_of (some t) = t

-- The statements of the batch: an event that has expired is passed over.
unfoldable pub insert_batch : ℕ → List AnalyticsEvent → Tables → M Tables
unfolding attempt insert_event
insert_batch cutoff [] tables = pure tables
insert_batch cutoff (e ∷ events) tables = elim (is_expired cutoff e.timestamp) [
  | true ↦ insert_batch cutoff events tables
  | false ↦ do attempt; insert_batch cutoff events (insert_event (time_of e.timestamp) e tables)
]

-- The tables change when the transaction commits.
unfoldable pub write_batch : Config → ℕ → List AnalyticsEvent → M (Unit {0})
unfolding attempt insert_batch
write_batch cfg now events = do
  attempt
  s ← get
  tables ← insert_batch (now - cfg.analytics_event_ttl) events s.tables
  attempt
  modify λ t. record t { tables = tables }

abbrev pub newer : ℕ → Row → Bool
newer cutoff r = leb cutoff r.timestamp

pub data Table : Type 0 where
  deliveries_table http_requests_table smtp_rejections_table : Table

-- DELETE FROM … WHERE timestamp < ?
unfoldable pub delete_older : ℕ → Table → Tables → Tables
delete_older cutoff deliveries_table tables = record tables {
  deliveries = keep_if (newer cutoff) tables.deliveries;
}
delete_older cutoff http_requests_table tables = record tables {
  http_requests = keep_if (newer cutoff) tables.http_requests;
}
delete_older cutoff smtp_rejections_table tables = record tables {
  smtp_rejections = keep_if (newer cutoff) tables.smtp_rejections;
}

unfoldable pub prune_table : ℕ → Table → M (Unit {0})
unfolding attempt delete_older
prune_table cutoff table =
    attempt >> modify λ s. record s { tables = delete_older cutoff table s.tables }

unfoldable pub prune : Config → ℕ → M (Unit {0})
unfolding prune_table
prune cfg now = do
  let cutoff = millis (now - cfg.analytics_event_ttl)
  prune_table cutoff deliveries_table
  prune_table cutoff http_requests_table
  prune_table cutoff smtp_rejections_table

abbrev pub same_table : Table → Table → Bool
same_table deliveries_table deliveries_table = true
same_table http_requests_table http_requests_table = true
same_table smtp_rejections_table smtp_rejections_table = true
same_table _ _ = false

pub record Key : Type 0 where
  pub table : Table
  pub id : Bytes
  pub timestamp : ℕ

abbrev pub key_of : Table → Row → Key
key_of table r = record { table = table; id = r.id; timestamp = r.timestamp }

unfoldable pub all_keys : Tables → List Key
all_keys tables =
    map (key_of deliveries_table) tables.deliveries
    ++ map (key_of http_requests_table) tables.http_requests
    ++ map (key_of smtp_rejections_table) tables.smtp_rejections

-- ORDER BY timestamp, id
abbrev pub key_before : Key → Key → Bool
key_before a b = ltb a.timestamp b.timestamp || ((a.timestamp == b.timestamp) && lt_bytes a.id b.id)

unfoldable pub insert_key : Key → List Key → List Key
unfolding lt_bytes
insert_key k [] = k ∷ []
insert_key k (q ∷ keys) = if key_before q k then q ∷ insert_key k keys else k ∷ q ∷ keys

unfoldable pub sort_keys : List Key → List Key
unfolding insert_key
sort_keys [] = []
sort_keys (k ∷ keys) = insert_key k (sort_keys keys)

unfoldable pub oldest_keys : Tables → List Key
unfolding all_keys sort_keys
oldest_keys tables = take 256 (sort_keys (all_keys tables))

abbrev pub is_key_of : Table → Key → Row → Bool
is_key_of table k r = same_table table k.table && eq_bytes r.id k.id

-- DELETE FROM … WHERE id = ?
unfoldable pub delete_key : Key → Tables → Tables
unfolding eq_bytes
delete_key k tables = record {
  deliveries = keep_if (λ r. not (is_key_of deliveries_table k r)) tables.deliveries;
  http_requests = keep_if (λ r. not (is_key_of http_requests_table k r)) tables.http_requests;
  smtp_rejections = keep_if (λ r. not (is_key_of smtp_rejections_table k r)) tables.smtp_rejections;
}

unfoldable pub delete_keys : List Key → Tables → M Tables
unfolding attempt delete_key
delete_keys [] tables = pure tables
delete_keys (k ∷ keys) tables = do attempt; delete_keys keys (delete_key k tables)

abbrev pub is_nil {ℓ} : {A : Type ℓ} → List A → Bool
is_nil [] = true
is_nil (x ∷ xs) = false

-- The pages and the log in use: one call stands for three.
unfoldable pub usage : M ℕ
unfolding answer
usage = answer

abbrev pub evicted : Tables → List Key → Analytics → Analytics
evicted tables keys a = record a {
  tables = tables;
  status = record a.status { early_evicted_events = a.status.early_evicted_events + length keys };
}

-- A round while the budget is exceeded: the transaction that removes the oldest rows.
unfoldable pub evict_oldest : M (List Key)
unfolding attempt oldest_keys delete_keys
evict_oldest = do
  attempt
  s ← get
  attempt
  tables ← delete_keys (oldest_keys s.tables) s.tables
  attempt
  λ t w. done (oldest_keys s.tables) (evicted tables (oldest_keys s.tables) t) w

unfoldable pub shrink : ℕ → ℕ → ℕ → M ℕ
unfolding evict_oldest usage attempt
shrink max_bytes zero used = pure used
shrink max_bytes (suc rounds) used = elim (ltb max_bytes used) [
  | false ↦ pure used
  | true ↦ do
    keys ← evict_oldest
    elim (is_nil keys) [
      | true ↦ pure used
      | false ↦ do attempt; attempt; used' ← usage; shrink max_bytes rounds used'
    ]
]

unfoldable pub within_budget : ℕ → ℕ → M ℕ
unfolding shrink usage attempt
within_budget max_bytes used = elim (ltb max_bytes used) [
  | false ↦ pure used
  | true ↦ do attempt; used' ← usage; shrink max_bytes 32 used'
]

-- MIN(timestamp) over the tables.
abbrev earlier : ℕ → Option ℕ → Option ℕ
earlier t none = some t
earlier t (some u) = some (min t u)

unfoldable pub earliest : List Key → Option ℕ
earliest [] = none
earliest (k ∷ keys) = earlier k.timestamp (earliest keys)

unfoldable pub maintain : Config → M (Unit {0})
unfolding usage within_budget attempt earliest all_keys
maintain cfg = do
  used ← usage
  used' ← within_budget cfg.analytics_max_storage_bytes used
  attempt
  modify λ s. record s {
    status = record s.status {
      storage_bytes = used';
      earliest_event = earliest (all_keys s.tables);
    };
  }
