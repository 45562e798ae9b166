-- ===== src/Analytics/Worker/Quiet.antt =====
-- The database work leaves the queue and the batch alone.
use tmpmail_fyi.Common.{
  ltb, ℤ, ℕ, zero, suc, ◌-◌, ◌≡◌, refl, ap, ◌∙◌, Bool, true, false, List, [], ◌∷◌,
}
use tmpmail_fyi.Config.{Config}
use tmpmail_fyi.Analytics.State.{
  AnalyticsEvent, Tables, QueuedAnalyticsEvent, Analytics, Answers, Outcome, M, ◌>>=◌, ◌>>◌, pure,
  get, modify, answer, attempt, ended_well, succeeds, fails, answers, done, failed,
}
use tmpmail_fyi.Analytics.Tables.{
  millis, is_expired, insert_batch, write_batch, Table, delete_older, prune_table, prune, Key,
  oldest_keys, delete_key, delete_keys, is_nil, usage, evicted, evict_oldest, shrink, within_budget,
  maintain, deliveries_table, http_requests_table, smtp_rejections_table,
}
use tmpmail_fyi.Analytics.Worker.{}

-- What the worker and the callers of Record count.
pub record Work : Type 0 where
  pub queue : List QueuedAnalyticsEvent
  pub batch : List AnalyticsEvent
  pub attempts : ℕ
  pub pending : ℤ
  pub finished : Bool
  pub dropped : ℕ

abbrev pub work : Analytics → Work
work a = record {
  queue = a.queue;
  batch = a.batch;
  attempts = a.attempts;
  pending = a.pending;
  finished = a.finished;
  dropped = a.status.dropped_events;
}

module _ {A : Type 0} where
  abbrev pub SameWork : Analytics → Outcome A → Type 0
  SameWork s (done a t w) = work t ≡ work s
  SameWork s (failed t w) = work t ≡ work s

  abbrev pub Keeps : M A → Type 0
  Keeps m = (s : Analytics) (w : Answers) → SameWork s (m s w)

module _ {A B : Type 0} where
  after-SameWork :
      (f : A → M B) (s : Analytics) (o : Outcome A)
      → SameWork s o
      → ((a : A) → Keeps (f a))
      → SameWork s (elim o [ done a t v ↦ f a t v | failed t v ↦ failed t v ])
  after-SameWork f s (failed t v) h k = h
  after-SameWork f s (done a t v) h k = chained (f a t v) (k a t v)
    where
      chained : (o : Outcome B) → SameWork t o → SameWork s o
      chained (done b u x) l = l ∙ h
      chained (failed u x) l = l ∙ h

  pub bind-Keeps : (m : M A) (f : A → M B) → Keeps m → ((a : A) → Keeps (f a)) → Keeps (m >>= f)
  bind-Keeps m f h k s w = after-SameWork f s (m s w) (h s w) k

module _ {A : Type 0} where
  pub get-Keeps : (f : Analytics → M A) → ((a : Analytics) → Keeps (f a)) → Keeps (get >>= f)
  get-Keeps f h s w = h s s w

  pub elim-Keeps :
      (b : Bool) (m n : M A) → Keeps m → Keeps n → Keeps (elim b [ true ↦ m | false ↦ n ])
  elim-Keeps true m n h k = h
  elim-Keeps false m n h k = k

pub answer-Keeps : Keeps answer
unfolding answer
answer-Keeps s [] = refl
answer-Keeps s (fails ∷ w) = refl
answer-Keeps s (answers n ∷ w) = refl

pub attempt-Keeps : Keeps attempt
unfolding attempt
attempt-Keeps = bind-Keeps answer (λ _. pure tt) answer-Keeps λ _ s w. refl

insert_batch-Keeps :
    (cutoff : ℕ) (events : List AnalyticsEvent) (tables : Tables)
    → Keeps (insert_batch cutoff events tables)
unfolding insert_batch
insert_batch-Keeps cutoff [] tables = λ s w. refl
insert_batch-Keeps cutoff (e ∷ events) tables =
    elim-Keeps (is_expired cutoff e.timestamp) _ _ (insert_batch-Keeps cutoff events tables)
      (bind-Keeps attempt _ attempt-Keeps λ _. insert_batch-Keeps cutoff events _)

pub write_batch-Keeps :
    (cfg : Config) (now : ℕ) (events : List AnalyticsEvent) → Keeps (write_batch cfg now events)
unfolding write_batch
write_batch-Keeps cfg now events = bind-Keeps attempt _ attempt-Keeps λ _. get-Keeps _ λ a.
    bind-Keeps (insert_batch _ events a.tables) _ (insert_batch-Keeps _ events a.tables)
      λ tables. bind-Keeps attempt _ attempt-Keeps λ _ s w. refl

prune_table-Keeps : (cutoff : ℕ) (table : Table) → Keeps (prune_table cutoff table)
unfolding prune_table
prune_table-Keeps cutoff table =
    bind-Keeps attempt (λ _. modify λ s. record s { tables = delete_older cutoff table s.tables })
      attempt-Keeps λ _ s w. refl

prune-Keeps : (cfg : Config) (now : ℕ) → Keeps (prune cfg now)
unfolding prune
prune-Keeps cfg now =
    let cutoff = millis (now - cfg.analytics_event_ttl) in
    bind-Keeps (prune_table cutoff deliveries_table) _ (prune_table-Keeps cutoff deliveries_table)
      λ _.
        bind-Keeps (prune_table cutoff http_requests_table) _
          (prune_table-Keeps cutoff http_requests_table)
          λ _. prune_table-Keeps cutoff smtp_rejections_table

delete_keys-Keeps : (keys : List Key) (tables : Tables) → Keeps (delete_keys keys tables)
unfolding delete_keys
delete_keys-Keeps [] tables = λ s w. refl
delete_keys-Keeps (k ∷ keys) tables =
    bind-Keeps attempt _ attempt-Keeps λ _. delete_keys-Keeps keys (delete_key k tables)

evict_oldest-Keeps : Keeps evict_oldest
unfolding evict_oldest
evict_oldest-Keeps = bind-Keeps attempt _ attempt-Keeps λ _. get-Keeps _ λ a.
    bind-Keeps attempt _ attempt-Keeps λ _.
      bind-Keeps (delete_keys (oldest_keys a.tables) a.tables) _
        (delete_keys-Keeps (oldest_keys a.tables) a.tables)
        λ tables.
          bind-Keeps attempt
            (λ _ t w. done (oldest_keys a.tables) (evicted tables (oldest_keys a.tables) t) w)
            attempt-Keeps λ _ s w. refl

shrink-Keeps : (max_bytes rounds used : ℕ) → Keeps (shrink max_bytes rounds used)
unfolding shrink usage
shrink-Keeps max_bytes zero used = λ s w. refl
shrink-Keeps max_bytes (suc rounds) used =
    elim-Keeps (ltb max_bytes used) _ _
      (bind-Keeps evict_oldest _ evict_oldest-Keeps λ keys.
        elim-Keeps (is_nil keys) (pure used) _ (λ s w. refl)
          (bind-Keeps attempt _ attempt-Keeps λ _.
            bind-Keeps attempt _ attempt-Keeps
              λ _. bind-Keeps answer _ answer-Keeps λ used'. shrink-Keeps max_bytes rounds used'))
      (λ s w. refl)

within_budget-Keeps : (max_bytes used : ℕ) → Keeps (within_budget max_bytes used)
unfolding within_budget usage
within_budget-Keeps max_bytes used =
    elim-Keeps (ltb max_bytes used) _ _
      (bind-Keeps attempt _ attempt-Keeps
        λ _. bind-Keeps answer _ answer-Keeps λ used'. shrink-Keeps max_bytes 32 used')
      (λ s w. refl)

pub maintain-Keeps : (cfg : Config) → Keeps (maintain cfg)
unfolding maintain usage
maintain-Keeps cfg = bind-Keeps answer _ answer-Keeps λ used.
    bind-Keeps (within_budget cfg.analytics_max_storage_bytes used) _
      (within_budget-Keeps cfg.analytics_max_storage_bytes used)
      λ used'. bind-Keeps attempt _ attempt-Keeps λ _ s w. refl

pub upkeep-Keeps : (cfg : Config) (now : ℕ) → Keeps (prune cfg now >> maintain cfg)
upkeep-Keeps cfg now = bind-Keeps (prune cfg now) _ (prune-Keeps cfg now) λ _. maintain-Keeps cfg

-- With its error as a value the work always ends.
pub record Ended {A : Type 0} (m : M A) (s : Analytics) (w : Answers) : Type 0 where
  pub ok : Bool
  pub after : Analytics
  pub answers_left : Answers
  pub same : work after ≡ work s
  pub ends : succeeds m s w ≡ done ok after answers_left

-- A computation that has ended, as a Boolean.
outcome-Ended :
    {A : Type 0} (m : M A) (s : Analytics) (w : Answers) (o : Outcome A)
    → m s w ≡ o
    → SameWork s o
    → Ended m s w
unfolding succeeds
outcome-Ended m s w (done a t v) e h = record {
  ok = true;
  after = t;
  answers_left = v;
  same = h;
  ends = ap ended_well e;
}
outcome-Ended m s w (failed t v) e h = record {
  ok = false;
  after = t;
  answers_left = v;
  same = h;
  ends = ap ended_well e;
}

pub succeeds-Ended : {A : Type 0} (m : M A) (s : Analytics) (w : Answers) → Keeps m → Ended m s w
succeeds-Ended m s w h = outcome-Ended m s w (m s w) refl (h s w)
