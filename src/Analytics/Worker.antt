-- ===== src/Analytics/Worker.antt =====
-- Recording and the worker: OpenAnalytics, Record, boundedAnalyticsString, drop, failure, disconnect,
-- open, run and Close of internal/app/analytics.go. A step is one case of a select, or one call of
-- Record or Close; the worker and the callers take their steps in some order. Creating the tables
-- is one call, and migrateDeliveryTiming another. strings.ToValidUTF8 is a parameter.
pub mod Quiet
pub mod Counted
pub mod Bounded
pub mod Written
pub mod Drained
use tmpmail_fyi.Common.{
  ltb, leb, ◌==◌, if◌then◌else◌, length, take, Bytes, codes, eq_bytes, ◌+ℤ◌, ◌-ℤ◌, ltb_ℤ, pos, ℕ,
  zero, suc, ◌+◌, Bool, true, false, not, ◌&&◌, ◌||◌, Option, none, some, List, [], ◌∷◌, ◌++◌,
}
use tmpmail_fyi.Config.{Config}
use tmpmail_fyi.Analytics.State.{
  AnalyticsEvent, Tables, QueuedAnalyticsEvent, Analytics, analytics_queue_size,
  analytics_batch_size, analytics_max_attempts, Answers, Outcome, M, ◌>>=◌, ◌>>◌, pure, get, modify,
  attempt, succeeds, done, failed,
}
use tmpmail_fyi.Analytics.Tables.{write_batch, prune, maintain}

unfoldable pub failure : Analytics → Analytics
failure a = record a {
  status = record a.status { write_errors = a.status.write_errors + 1; available = false };
}

unfoldable pub disconnect : Analytics → Analytics
disconnect a = record a { connected = false; status = record a.status { available = false } }

unfoldable pub drop_events : ℕ → Analytics → Analytics
drop_events n a = record a {
  status = record a.status { dropped_events = a.status.dropped_events + n };
}

-- failure() and disconnect(), if the work failed.
abbrev pub settle : Bool → Analytics → Analytics
settle true a = a
settle false a = disconnect (failure a)

abbrev pub is_kind : Bytes → Bool
is_kind kind =
    eq_bytes kind (codes "delivery")
    || eq_bytes kind (codes "http")
    || eq_bytes kind (codes "smtpRejected")

abbrev or_now : ℕ → Option ℕ → Option ℕ
or_now now none = some now
or_now now (some t) = some t

abbrev or_id : Bytes → Bytes → Bytes
or_id fresh [] = fresh
or_id fresh (c ∷ id) = c ∷ id

-- pending.Add(1), and the time of the first event of a backlog.
abbrev pub count_pending : ℕ → Analytics → Analytics
count_pending now a =
    let a' : Analytics = record a { pending = a.pending +ℤ pos 1 } in
    if ltb_ℤ (pos 0) a.pending || ltb_ℤ a.pending (pos 0)
    then a'
    else record a' { backlog_since = now }

-- The send, or its default.
abbrev pub send : QueuedAnalyticsEvent → Analytics → Analytics
send queued a =
    if ltb (length a.queue) analytics_queue_size
    then record a { queue = a.queue ++ queued ∷ [] }
    else drop_events 1 (record a { pending = a.pending -ℤ pos 1 })

module _ (to_valid_utf8 : Bytes → Bytes) where
  unfoldable pub bounded_analytics_string : Bytes → ℕ → Bytes
  bounded_analytics_string s n = to_valid_utf8 (if ltb n (length s) then take n s else s)

  -- The fields that a caller controls are bounded.
  unfoldable pub bounded_event : ℕ → Bytes → AnalyticsEvent → AnalyticsEvent
  unfolding bounded_analytics_string
  bounded_event now fresh e = record e {
    timestamp = or_now now e.timestamp;
    id = bounded_analytics_string (or_id fresh e.id) 128;
    recipient = bounded_analytics_string e.recipient 320;
    sender = bounded_analytics_string e.sender 320;
    sender_domain = bounded_analytics_string e.sender_domain 255;
    ip = bounded_analytics_string e.ip 64;
    user_agent = bounded_analytics_string e.user_agent 512;
    route = bounded_analytics_string e.route 128;
    method = bounded_analytics_string e.method 16;
    message_id = bounded_analytics_string e.message_id 128;
  }

  unfoldable pub record_event : Config → ℕ → Bytes → AnalyticsEvent → Analytics → Analytics
  unfolding eq_bytes drop_events bounded_event
  record_event cfg now fresh e a =
      if not cfg.analytics_enabled || a.closed
      then a
      else if not (is_kind e.kind)
      then drop_events 1 a
      else send (record { event = bounded_event now fresh e; queued_at = now })
          (count_pending now a)

abbrev pub is_empty {ℓ} : {A : Type ℓ} → List A → Bool
is_empty [] = true
is_empty (x ∷ xs) = false

-- The batch is done with, written or dropped.
abbrev pub clear_batch : Analytics → Analytics
clear_batch a = record a { pending = a.pending -ℤ pos (length a.batch); batch = []; attempts = 0 }

-- An attempt that failed: the last one drops the batch.
abbrev pub fail_attempt : Analytics → Analytics
fail_attempt a =
    if leb analytics_max_attempts (a.attempts + 1)
    then clear_batch (drop_events (length a.batch) a)
    else record a { attempts = a.attempts + 1 }

abbrev pub ingested : ℕ → Analytics → Analytics
ingested now a =
    let b = clear_batch a in
    record b { status = record b.status { last_ingested = some now; available = true } }

-- One event of the queue goes to the batch.
abbrev pub move_first : List QueuedAnalyticsEvent → Analytics → Analytics
move_first [] a = a
move_first (queued ∷ rest) a =
    let b : Analytics = record a { queue = rest; batch = a.batch ++ queued.event ∷ [] } in
    if is_empty a.batch then record b { backlog_since = queued.queued_at } else b

-- The inner loop of the shutdown: at most a batch.
unfoldable pub fill_batch : ℕ → Analytics → Analytics
fill_batch zero a = a
fill_batch (suc fuel) a =
    let more = ltb (length a.batch) analytics_batch_size && not (is_empty a.queue) in
    elim more [ true ↦ fill_batch fuel (move_first a.queue a) | false ↦ a ]

module _ (cfg : Config) (now : ℕ) where
  -- a.open(): the result is whether there is a database; err is counted by failure().
  unfoldable pub open_database : M (Unit {0})
  unfolding attempt prune maintain failure disconnect
  open_database = do
    ready ← succeeds (attempt >> attempt >> attempt)
    elim ready [
      | false ↦ modify failure
      | true ↦ do
        modify λ a. record a { connected = true; status = record a.status { available = true } }
        kept ← succeeds (prune cfg now >> maintain cfg)
        modify (settle kept)
    ]

  -- The function write of run.
  unfoldable pub write : M (Unit {0})
  unfolding write_batch failure drop_events disconnect maintain
  write = do
    a ← get
    elim (is_empty a.batch || not a.connected) [
      | true ↦ pure tt
      | false ↦ do
        written ← succeeds (write_batch cfg now a.batch)
        elim written [
          | false ↦ modify λ b. disconnect (fail_attempt (failure b))
          | true ↦ do modify (ingested now); kept ← succeeds (maintain cfg); modify (settle kept)
        ]
    ]

  unfoldable pub receive : M (Unit {0})
  unfolding write
  receive = do
    a ← get
    elim (ltb (length a.batch) analytics_batch_size) [
      | false ↦ pure tt
      | true ↦ do
        modify (move_first a.queue)
        b ← get
        elim (not (is_empty a.queue) && (length b.batch == analytics_batch_size)) [
          | true ↦ write
          | false ↦ pure tt
        ]
    ]

  unfoldable pub retry : M (Unit {0})
  unfolding open_database write drop_events
  retry = do
    a ← get
    elim a.connected [ true ↦ pure tt | false ↦ open_database ]
    b ← get
    elim (not b.connected && not (is_empty b.batch)) [ true ↦ modify fail_attempt | false ↦ write ]

  unfoldable pub clean_up : M (Unit {0})
  unfolding prune maintain failure disconnect
  clean_up = do
    a ← get
    elim a.connected [
      | false ↦ pure tt
      | true ↦ do kept ← succeeds (prune cfg now >> maintain cfg); modify (settle kept)
    ]

  unfoldable pub drain : ℕ → M (Unit {0})
  unfolding fill_batch write
  drain zero = pure tt
  drain (suc fuel) = do
    a ← get
    elim (not (is_empty a.queue) && a.connected) [
      | false ↦ pure tt
      | true ↦ do modify (fill_batch analytics_batch_size); write; drain fuel
    ]

  -- The case of a.stop: what cannot be written is dropped, and the worker returns.
  unfoldable pub stop : M (Unit {0})
  unfolding write drain drop_events disconnect
  stop = do
    write
    a ← get
    drain (suc (length a.queue))
    b ← get
    let n = length b.batch + length b.queue
    modify
        λ c. disconnect (record (drop_events n c) { pending = c.pending -ℤ pos n; finished = true })

pub data Event : Type 0 where
  recorded : ℕ → Bytes → AnalyticsEvent → Event
  received : Event
  flush_tick : Event
  retry_tick : Event
  cleanup_tick : Event
  close_called : Event
  stopped : Event

abbrev pub final {ℓ} : {A : Type ℓ} → Outcome A → Analytics
final (done a s w) = s
final (failed s w) = s

-- The worker takes its steps until it has returned, and stops once Close was called.
abbrev pub worked : M (Unit {0}) → Answers → Analytics → Analytics
worked m w a = if a.finished then a else final (m a w)

unfoldable pub step : (Bytes → Bytes) → Config → ℕ → Answers → Event → Analytics → Analytics
unfolding record_event write receive retry clean_up stop
step to_valid_utf8 cfg now w (recorded at fresh e) a = record_event to_valid_utf8 cfg at fresh e a
step to_valid_utf8 cfg now w received a = worked (receive cfg now) w a
step to_valid_utf8 cfg now w flush_tick a = worked (write cfg now) w a
step to_valid_utf8 cfg now w retry_tick a = worked (retry cfg now) w a
step to_valid_utf8 cfg now w cleanup_tick a = worked (clean_up cfg now) w a
step to_valid_utf8 cfg now w close_called a = record a { closed = true }
step to_valid_utf8 cfg now w stopped a = if a.closed then worked (stop cfg now) w a else a

-- What happens, with the clock and the answers of the database for each step.
pub record Happening : Type 0 where
  pub event : Event
  pub now : ℕ
  pub answers : Answers

unfoldable pub run : (Bytes → Bytes) → Config → List Happening → Analytics → Analytics
unfolding step
run to_valid_utf8 cfg [] a = a
run to_valid_utf8 cfg (h ∷ rest) a =
    run to_valid_utf8 cfg rest (step to_valid_utf8 cfg h.now h.answers h.event a)

-- Before the first a.open(), of enabled analytics; what the file holds is given.
abbrev pub fresh_analytics : Tables → Analytics
fresh_analytics tables = record {
  queue = [];
  batch = [];
  attempts = 0;
  pending = pos 0;
  backlog_since = 0;
  closed = false;
  finished = false;
  connected = false;
  tables = tables;
  status = record {
    available = false;
    storage_bytes = 0;
    earliest_event = none;
    last_ingested = none;
    dropped_events = 0;
    write_errors = 0;
    early_evicted_events = 0;
  };
}

-- Limits that are zero stand for the defaults.
abbrev pub with_defaults : Config → Config
with_defaults cfg = record cfg {
  analytics_event_ttl =
      if cfg.analytics_event_ttl == 0 then 2_592_000_000_000_000 else cfg.analytics_event_ttl;
  analytics_max_storage_bytes =
      if cfg.analytics_max_storage_bytes == 0
      then 1_073_741_824
      else cfg.analytics_max_storage_bytes;
}

unfoldable pub open_analytics : Config → ℕ → Answers → Tables → Analytics
unfolding open_database
open_analytics cfg now w tables =
    final (open_database (with_defaults cfg) now (fresh_analytics tables) w)
