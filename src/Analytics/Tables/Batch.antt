-- ===== src/Analytics/Tables/Batch.antt =====
-- The transaction of a batch: writeBatch of internal/app/analytics.go.
use tmpmail_fyi.Common.{if◌then◌else◌, All, ℕ, ◌-◌, ◌≡◌, refl, ap, List, [], ◌∷◌}
use tmpmail_fyi.Config.{Config}
use tmpmail_fyi.Analytics.State.{
  AnalyticsEvent, Tables, Analytics, Answers, Outcome, M, ◌>>=◌, ◌>>◌, modify, attempt, done,
  failed,
}
use tmpmail_fyi.Analytics.Tables.{insert_event, is_expired, time_of, insert_batch, write_batch}
use tmpmail_fyi.Analytics.Tables.Transaction.{
  Leaves, Keeping, bind-Keeping, attempt-Keeping, elim-Keeping,
}
use tmpmail_fyi.Analytics.Tables.Insert.{
  insert_live, insert_all, IsSettled, insert_all-IsSettled, insert_all-again,
}

insert_batch-Keeping :
    (before : Analytics) (cutoff : ℕ) (events : List AnalyticsEvent) (tables : Tables)
    → Keeping before (λ r. r ≡ insert_all cutoff events tables) (insert_batch cutoff events tables)
unfolding insert_batch insert_all insert_live
insert_batch-Keeping before cutoff [] tables s w same = (same, refl)
insert_batch-Keeping before cutoff (e ∷ events) tables s w same =
    let inserted = insert_event (time_of e.timestamp) e tables in
    elim-Keeping before (is_expired cutoff e.timestamp)
      (λ x r. r ≡ insert_all cutoff events (if x then tables else inserted))
      (insert_batch cutoff events tables) (attempt >> insert_batch cutoff events inserted)
      (insert_batch-Keeping before cutoff events tables)
      (bind-Keeping before (λ _. Unit {0}) (λ r. r ≡ insert_all cutoff events inserted) attempt
        (λ _. insert_batch cutoff events inserted) (attempt-Keeping before)
        λ _ _. insert_batch-Keeping before cutoff events inserted)
      s w same

abbrev IsWritten : ℕ → List AnalyticsEvent → Tables → Tables → Type 0
IsWritten cutoff events tables after =
    (after ≡ insert_all cutoff events tables)
    × All (IsSettled cutoff after) events
    × (insert_all cutoff events after ≡ after)

insert_all-IsWritten :
    (cutoff : ℕ) (events : List AnalyticsEvent) (tables : Tables)
    → IsWritten cutoff events tables (insert_all cutoff events tables)
insert_all-IsWritten cutoff events tables =
    let settled = insert_all-IsSettled cutoff events tables in
    (refl, settled, insert_all-again cutoff events (insert_all cutoff events tables) settled)

-- What a batch leaves: a row for each event of it that has not expired, as the statements of the
-- batch make them, which another try at the same batch leaves as they are; or what there was before.
unfoldable pub Batched : ℕ → List AnalyticsEvent → Tables → Outcome (Unit {0}) → Type 0
Batched cutoff events tables (done u t w) = IsWritten cutoff events tables t.tables
Batched cutoff events tables (failed t w) = t.tables ≡ tables

module _ (cutoff : ℕ) (events : List AnalyticsEvent) (before : Analytics) where
  abbrev Commits : M (Unit {0}) → Type 0
  Commits m =
      (s : Analytics) (w : Answers) → s ≡ before → Batched cutoff events before.tables (m s w)

  after-Commits :
      {A : Type 0} (P : A → Type 0) (f : A → M (Unit {0})) (o : Outcome A)
      → Leaves before P o
      → ((a : A) → P a → Commits (f a))
      → Batched cutoff events before.tables
          (elim o [ done a t v ↦ f a t v | failed t v ↦ failed t v ])
  unfolding Batched
  after-Commits P f (done a t v) (same, h) k = k a h t v same
  after-Commits P f (failed t v) same k = ap Analytics.tables same

  bind-Commits :
      {A : Type 0} (P : A → Type 0) (m : M A) (f : A → M (Unit {0}))
      → Keeping before P m
      → ((a : A) → P a → Commits (f a))
      → Commits (m >>= f)
  bind-Commits P m f h k s w same = after-Commits P f (m s w) (h s w same) k

  commit-Commits :
      (tables : Tables)
      → tables ≡ insert_all cutoff events before.tables
      → Commits (modify λ t. record t { tables = tables })
  unfolding Batched
  commit-Commits tables e s w same = rw e (insert_all-IsWritten cutoff events before.tables)

-- The batch is written as a whole or not at all: when a statement or the commit fails the tables are
-- as they were, and otherwise each event of the batch that has not expired has its row, whatever was
-- there, and the same batch once more changes nothing.
pub write_batch-Batched :
    (cfg : Config) (now : ℕ) (events : List AnalyticsEvent) (s : Analytics) (w : Answers)
    → Batched (now - cfg.analytics_event_ttl) events s.tables (write_batch cfg now events s w)
unfolding write_batch
write_batch-Batched cfg now events s w =
    let cutoff = now - cfg.analytics_event_ttl in
    let started : Unit {0} → Type 0 = λ _. Unit {0} in
    let statements : Tables → Type 0 = λ r. r ≡ insert_all cutoff events s.tables in
    bind-Commits cutoff events s started attempt _ (attempt-Keeping s)
      (λ _ _ t v same.
        bind-Commits cutoff events s statements (insert_batch cutoff events t.tables) _
          (rw same (insert_batch-Keeping s cutoff events s.tables))
          (λ r e.
            bind-Commits cutoff events s started attempt _ (attempt-Keeping s)
              λ _ _. commit-Commits cutoff events s r e)
          t v same)
      s w refl
