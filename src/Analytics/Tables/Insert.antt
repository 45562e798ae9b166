-- ===== src/Analytics/Tables/Insert.antt =====
-- The statements of a batch, none of which fails: the loop of writeBatch of
-- internal/app/analytics.go.
use tmpmail_fyi.Common.{
  if◌then◌else◌, Bool-cases, All, Bytes, eq_bytes_refl, ℕ, ◌≡◌, refl, ap, ◌∙◌, inl, inr, Bool, true,
  false, List, [], ◌∷◌,
}
use tmpmail_fyi.Config.{}
use tmpmail_fyi.Analytics.State.{AnalyticsEvent, Row, Tables}
use tmpmail_fyi.Analytics.Tables.{
  has_id, insert_or_ignore, is_delivery, is_rejection, delivery_row, rejection_row, request_row,
  insert_event, is_expired, time_of, Table, deliveries_table, http_requests_table,
  smtp_rejections_table,
}

-- One event's statement, if it has one.
unfoldable pub insert_live : ℕ → AnalyticsEvent → Tables → Tables
insert_live cutoff e tables =
    if is_expired cutoff e.timestamp then tables else insert_event (time_of e.timestamp) e tables

-- The tables after the statements of a batch, none of which failed.
unfoldable pub insert_all : ℕ → List AnalyticsEvent → Tables → Tables
insert_all cutoff [] tables = tables
insert_all cutoff (e ∷ events) tables = insert_all cutoff events (insert_live cutoff e tables)

abbrev pub table_by : (delivery rejection : Bool) → Table
table_by true rejection = deliveries_table
table_by false true = smtp_rejections_table
table_by false false = http_requests_table

abbrev pub table_of : AnalyticsEvent → Table
table_of e = table_by (is_delivery e) (is_rejection e)

abbrev pub rows_in : Table → Tables → List Row
rows_in deliveries_table tables = tables.deliveries
rows_in http_requests_table tables = tables.http_requests
rows_in smtp_rejections_table tables = tables.smtp_rejections

abbrev pub IsHeld : AnalyticsEvent → Tables → Type 0
IsHeld e tables = has_id e.id (rows_in (table_of e) tables) ≡ true

insert_in : Table → ℕ → AnalyticsEvent → Tables → Tables
insert_in deliveries_table t e tables = record tables {
  deliveries = insert_or_ignore (delivery_row t e) tables.deliveries;
}
insert_in http_requests_table t e tables = record tables {
  http_requests = insert_or_ignore (request_row t e) tables.http_requests;
}
insert_in smtp_rejections_table t e tables = record tables {
  smtp_rejections = insert_or_ignore (rejection_row t e) tables.smtp_rejections;
}

insert_event_lem :
    (t : ℕ) (e : AnalyticsEvent) (tables : Tables)
    → insert_event t e tables ≡ insert_in (table_of e) t e tables
unfolding insert_event insert_in
insert_event_lem t e tables = by_kind (is_delivery e) (is_rejection e)
  where
    by_kind :
        (d r : Bool)
        → (if d
            then record tables {
              deliveries = insert_or_ignore (delivery_row t e) tables.deliveries;
            }
            else if r
            then record tables {
              smtp_rejections = insert_or_ignore (rejection_row t e) tables.smtp_rejections;
            }
            else record tables {
              http_requests = insert_or_ignore (request_row t e) tables.http_requests;
            })
          ≡ insert_in (table_by d r) t e tables
    by_kind true r = refl
    by_kind false true = refl
    by_kind false false = refl

insert_or_ignore-held :
    (row : Row) (rows : List Row) → has_id row.id rows ≡ true → insert_or_ignore row rows ≡ rows
unfolding insert_or_ignore
insert_or_ignore-held row rows h = rw h refl

insert_or_ignore-has_id :
    (row : Row) (rows : List Row) → has_id row.id (insert_or_ignore row rows) ≡ true
unfolding insert_or_ignore has_id
insert_or_ignore-has_id row rows = elim (Bool-cases (has_id row.id rows)) [
  | inl e ↦ simp (e, insert_or_ignore)
  | inr e ↦ simp (e, insert_or_ignore, has_id, eq_bytes_refl row.id)
]

if_same : (b : Bool) → (if b then true else true) ≡ true
if_same true = refl
if_same false = refl

-- A row that is there stays.
has_id-insert_or_ignore :
    (key : Bytes) (row : Row) (rows : List Row)
    → has_id key rows ≡ true
    → has_id key (insert_or_ignore row rows) ≡ true
unfolding insert_or_ignore has_id
has_id-insert_or_ignore key row rows h = elim (Bool-cases (has_id row.id rows)) [
  | inl e ↦ simp (e, insert_or_ignore) h
  | inr e ↦ simp (e, insert_or_ignore, has_id, h, if_same)
]

insert_in-held :
    (k : Table) (t : ℕ) (e : AnalyticsEvent) (tables : Tables)
    → has_id e.id (rows_in k tables) ≡ true
    → insert_in k t e tables ≡ tables
unfolding insert_in
insert_in-held deliveries_table t e tables h =
    ap (λ rows. record tables { deliveries = rows }) (insert_or_ignore-held (delivery_row t e) _ h)
insert_in-held http_requests_table t e tables h =
    ap (λ rows. record tables { http_requests = rows })
      (insert_or_ignore-held (request_row t e) _ h)
insert_in-held smtp_rejections_table t e tables h =
    ap (λ rows. record tables { smtp_rejections = rows })
      (insert_or_ignore-held (rejection_row t e) _ h)

has_id-insert_in :
    (j k : Table) (key : Bytes) (t : ℕ) (e : AnalyticsEvent) (tables : Tables)
    → has_id key (rows_in j tables) ≡ true
    → has_id key (rows_in j (insert_in k t e tables)) ≡ true
unfolding insert_in
has_id-insert_in deliveries_table deliveries_table key t e tables h =
    has_id-insert_or_ignore key (delivery_row t e) tables.deliveries h
has_id-insert_in http_requests_table http_requests_table key t e tables h =
    has_id-insert_or_ignore key (request_row t e) tables.http_requests h
has_id-insert_in smtp_rejections_table smtp_rejections_table key t e tables h =
    has_id-insert_or_ignore key (rejection_row t e) tables.smtp_rejections h
has_id-insert_in deliveries_table http_requests_table key t e tables h = h
has_id-insert_in deliveries_table smtp_rejections_table key t e tables h = h
has_id-insert_in http_requests_table deliveries_table key t e tables h = h
has_id-insert_in http_requests_table smtp_rejections_table key t e tables h = h
has_id-insert_in smtp_rejections_table deliveries_table key t e tables h = h
has_id-insert_in smtp_rejections_table http_requests_table key t e tables h = h

insert_in-has_id :
    (k : Table) (t : ℕ) (e : AnalyticsEvent) (tables : Tables)
    → has_id e.id (rows_in k (insert_in k t e tables)) ≡ true
unfolding insert_in
insert_in-has_id deliveries_table t e tables =
    insert_or_ignore-has_id (delivery_row t e) tables.deliveries
insert_in-has_id http_requests_table t e tables =
    insert_or_ignore-has_id (request_row t e) tables.http_requests
insert_in-has_id smtp_rejections_table t e tables =
    insert_or_ignore-has_id (rejection_row t e) tables.smtp_rejections

-- An event is settled when it has expired, or its row is there.
abbrev pub IsSettled : ℕ → Tables → AnalyticsEvent → Type 0
IsSettled cutoff tables e = is_expired cutoff e.timestamp ≡ false → IsHeld e tables

insert_live-IsSettled :
    (cutoff : ℕ) (e : AnalyticsEvent) (tables : Tables)
    → IsSettled cutoff (insert_live cutoff e tables) e
unfolding insert_live
insert_live-IsSettled cutoff e tables live =
    rw (live, insert_event_lem (time_of e.timestamp) e tables)
      (insert_in-has_id (table_of e) (time_of e.timestamp) e tables)

insert_live-keeps :
    (cutoff : ℕ) (e q : AnalyticsEvent) (tables : Tables)
    → IsSettled cutoff tables q
    → IsSettled cutoff (insert_live cutoff e tables) q
unfolding insert_live
insert_live-keeps cutoff e q tables h live = elim (Bool-cases (is_expired cutoff e.timestamp)) [
  | inl x ↦ rw x (h live)
  | inr x ↦
      rw (x, insert_event_lem (time_of e.timestamp) e tables)
        (has_id-insert_in (table_of q) (table_of e) q.id (time_of e.timestamp) e tables (h live))
]

insert_live-again :
    (cutoff : ℕ) (e : AnalyticsEvent) (tables : Tables)
    → IsSettled cutoff tables e
    → insert_live cutoff e tables ≡ tables
unfolding insert_live
insert_live-again cutoff e tables h = elim (Bool-cases (is_expired cutoff e.timestamp)) [
  | inl x ↦ rw x refl
  | inr x ↦ rw x (
      insert_event_lem (time_of e.timestamp) e tables
      ∙ insert_in-held (table_of e) (time_of e.timestamp) e tables (h x))
]

insert_all-keeps :
    (cutoff : ℕ) (events : List AnalyticsEvent) (q : AnalyticsEvent) (tables : Tables)
    → IsSettled cutoff tables q
    → IsSettled cutoff (insert_all cutoff events tables) q
unfolding insert_all
insert_all-keeps cutoff [] q tables h = h
insert_all-keeps cutoff (e ∷ events) q tables h =
    insert_all-keeps cutoff events q (insert_live cutoff e tables)
      (insert_live-keeps cutoff e q tables h)

-- Every event of the batch that has not expired has its row.
pub insert_all-IsSettled :
    (cutoff : ℕ) (events : List AnalyticsEvent) (tables : Tables)
    → All (IsSettled cutoff (insert_all cutoff events tables)) events
unfolding insert_all
insert_all-IsSettled cutoff [] tables = tt
insert_all-IsSettled cutoff (e ∷ events) tables = (
  insert_all-keeps cutoff events e (insert_live cutoff e tables)
      (insert_live-IsSettled cutoff e tables),
  insert_all-IsSettled cutoff events (insert_live cutoff e tables),
)

pub insert_all-again :
    (cutoff : ℕ) (events : List AnalyticsEvent) (tables : Tables)
    → All (IsSettled cutoff tables) events
    → insert_all cutoff events tables ≡ tables
unfolding insert_all
insert_all-again cutoff [] tables h = refl
insert_all-again cutoff (e ∷ events) tables (now, rest) =
    ap (insert_all cutoff events) (insert_live-again cutoff e tables now)
    ∙ insert_all-again cutoff events tables rest
