-- ===== src/Analytics/Tables/Evicted.antt =====
-- What the eviction of a full database leaves: maintain of internal/app/analytics.go.
use tmpmail_fyi.Common.{length, keep_if, any, All, ◌+◌, ◌≤◌, ◌≡◌, false, not, List, [], ◌∷◌, map}
use tmpmail_fyi.Analytics.State.{Row, Tables, Analytics, Answers, Outcome, M, done, failed}
use tmpmail_fyi.Analytics.Tables.{
  Table, Key, key_of, all_keys, oldest_keys, delete_key, deliveries_table, http_requests_table,
  smtp_rejections_table,
}
use tmpmail_fyi.Analytics.Tables.Oldest.{OlderThan, same_key}

-- The tables without the rows of the keys.
unfoldable delete_all : List Key → Tables → Tables
delete_all [] tables = tables
delete_all (k ∷ keys) tables = delete_all keys (delete_key k tables)

module _ (P : Key → Type 0) where
  -- The keys of the three tables.
  Everywhere : Tables → Type 0
  Everywhere tables =
      All P (map (key_of deliveries_table) tables.deliveries)
      × All P (map (key_of http_requests_table) tables.http_requests)
      × All P (map (key_of smtp_rejections_table) tables.smtp_rejections)

abbrev Differs : Key → Key → Type 0
Differs k q = same_key q k ≡ false

abbrev IsOut : List Key → Key → Type 0
IsOut keys q = any (same_key q) keys ≡ false

-- The rows of a table whose keys are not among these.
abbrev pub rows_without : List Key → Table → List Row → List Row
rows_without keys t rows = keep_if (λ r. not (any (same_key (key_of t r)) keys)) rows

abbrev pub without : List Key → Tables → Tables
without keys tables = record {
  deliveries = rows_without keys deliveries_table tables.deliveries;
  http_requests = rows_without keys http_requests_table tables.http_requests;
  smtp_rejections = rows_without keys smtp_rejections_table tables.smtp_rejections;
}

-- A round of the eviction that ends well: the keys are those of the oldest rows, at most 256 of them,
-- the tables are as before but without the rows of the keys, and no row that is left is older than
-- one of them; the keys are counted.
unfoldable pub IsEviction : Analytics → Outcome (List Key) → Type 0
IsEviction s (done keys t w) =
    (keys ≡ oldest_keys s.tables)
    × (length keys ≤ 256)
    × (t.status.early_evicted_events ≡ s.status.early_evicted_events + length keys)
    × (t.tables ≡ without keys s.tables)
    × All (IsOut keys) (all_keys t.tables)
    × All (λ q. All (λ k. OlderThan q k) keys) (all_keys t.tables)
IsEviction s (failed t w) = (t.tables ≡ s.tables) × (t.status ≡ s.status)

module _ (before : Analytics) where
  abbrev Evicts : M (List Key) → Type 0
  Evicts m = (s : Analytics) (w : Answers) → s ≡ before → IsEviction before (m s w)
