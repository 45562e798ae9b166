-- ===== src/Analytics/State.antt =====
-- The state of the analytics, and the monad of its database work: the types of
-- internal/app/analytics.go and internal/app/analytics_contract.go. SQLite is not under test: each
-- call takes the next entry of a schedule, which says that it fails, or that it succeeds, with the
-- bytes in use if it asks for them. Times are in nanoseconds, those of rows in milliseconds, and a
-- duration in microseconds.
use tmpmail_fyi.Common.{Bytes, ℤ, ℕ, Bool, true, false, Option, List, [], ◌∷◌}

pub record AnalyticsEvent : Type 0 where
  pub id : Bytes
  pub kind : Bytes
  pub timestamp : Option ℕ
  pub recipient : Bytes
  pub sender : Bytes
  pub sender_domain : Bytes
  pub ip : Bytes
  pub size : ℕ
  pub user_agent : Bytes
  pub route : Bytes
  pub method : Bytes
  pub status : ℕ
  pub duration_known : Bool
  pub duration : ℕ
  pub message_id : Bytes
  pub polling : Bool

-- The columns of deliveries, smtp_rejections and http_requests beside the id and the timestamp.
pub data Columns : Type 0 where
  delivery_columns : Bytes → Bytes → Bytes → Bytes → ℕ → Option ℕ → Columns
  rejection_columns : Bytes → Bytes → Bytes → Bytes → ℕ → ℕ → Bytes → Columns
  request_columns : Bytes → Bytes → Bytes → Bytes → Bytes → ℕ → ℕ → Bytes → Bool → Columns

pub record Row : Type 0 where
  pub id : Bytes
  pub timestamp : ℕ
  pub columns : Columns

pub record Tables : Type 0 where
  pub deliveries : List Row
  pub http_requests : List Row
  pub smtp_rejections : List Row

pub record QueuedAnalyticsEvent : Type 0 where
  pub event : AnalyticsEvent
  pub queued_at : ℕ

-- The status that changes; the rest is the configuration.
pub record AnalyticsStatus : Type 0 where
  pub available : Bool
  pub storage_bytes : ℕ
  pub earliest_event : Option ℕ
  pub last_ingested : Option ℕ
  pub dropped_events : ℕ
  pub write_errors : ℕ
  pub early_evicted_events : ℕ

-- The batch and the attempts are those of the worker; `connected` says that there is a database,
-- and `finished` that the worker has returned.
pub record Analytics : Type 0 where
  pub queue : List QueuedAnalyticsEvent
  pub batch : List AnalyticsEvent
  pub attempts : ℕ
  pub pending : ℤ
  pub backlog_since : ℕ
  pub closed : Bool
  pub finished : Bool
  pub connected : Bool
  pub tables : Tables
  pub status : AnalyticsStatus

abbrev pub analytics_queue_size : ℕ
analytics_queue_size = 4096

abbrev pub analytics_batch_size : ℕ
analytics_batch_size = 128

abbrev pub analytics_max_attempts : ℕ
analytics_max_attempts = 3

pub data Answer : Type 0 where
  fails : Answer
  answers : ℕ → Answer

abbrev pub Answers : Type 0
Answers = List Answer

pub data Outcome {ℓ} (A : Type ℓ) : Type ℓ where
  done : A → Analytics → Answers → Outcome A
  failed : Analytics → Answers → Outcome A

abbrev pub M {ℓ} : Type ℓ → Type ℓ
M A = Analytics → Answers → Outcome A

infixl 5 ◌>>=◌ ◌>>◌
abbrev pub ◌>>=◌ {ℓ κ} : {A : Type ℓ} {B : Type κ} → M A → (A → M B) → M B
◌>>=◌ m f s w = elim (m s w) [ done a t v ↦ f a t v | failed t v ↦ failed t v ]

abbrev pub ◌>>◌ {ℓ κ} : {A : Type ℓ} {B : Type κ} → M A → M B → M B
m >> k = m >>= λ _. k

abbrev pub pure {ℓ} : {A : Type ℓ} → A → M A
pure a s w = done a s w

abbrev pub get : M Analytics
get s w = done s s w

abbrev pub modify : (Analytics → Analytics) → M (Unit {0})
modify f s w = done tt (f s) w

-- One call, and one that asks for a number.
unfoldable pub answer : M ℕ
answer s [] = done 0 s []
answer s (fails ∷ w) = failed s w
answer s (answers n ∷ w) = done n s w

unfoldable pub attempt : M (Unit {0})
unfolding answer
attempt = answer >> pure tt

-- The error of a part as a value.
abbrev pub ended_well {ℓ} : {A : Type ℓ} → Outcome A → Outcome Bool
ended_well (done a t v) = done true t v
ended_well (failed t v) = done false t v

unfoldable pub succeeds {ℓ} : {A : Type ℓ} → M A → M Bool
succeeds m s w = ended_well (m s w)
