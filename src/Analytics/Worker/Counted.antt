-- ===== src/Analytics/Worker/Counted.antt =====
-- The counters of the queue and the batch, over the parts of a step.
use tmpmail_fyi.Common.{
  leb, if◌then◌else◌, Bool-cases, length, length-append, pos_sub, pos, ℕ, suc, ◌+◌, ◌≤◌, ◌<◌, ◌≡◌,
  refl, sym, ap, subst, ◌∙◌, inl, inr, Bool, true, false, List, [], ◌∷◌, ◌++◌, arith,
}
use tmpmail_fyi.Config.{}
use tmpmail_fyi.Analytics.State.{
  QueuedAnalyticsEvent, Analytics, analytics_queue_size, analytics_batch_size,
  analytics_max_attempts, Answers, Outcome, M, ◌>>=◌, ended_well, succeeds, done, failed,
}
use tmpmail_fyi.Analytics.Tables.{}
use tmpmail_fyi.Analytics.Worker.{
  failure, disconnect, drop_events, settle, is_empty, clear_batch, fail_attempt, move_first, final,
}
use tmpmail_fyi.Analytics.Worker.Quiet.{Work, work, SameWork, Keeps}

-- Until the worker returns, `pending` is the number of events in the queue and the batch; both are
-- bounded, and so are the attempts for a batch.
pub record IsCounted (k : Work) : Type 0 where
  pub counted : k.finished ≡ false → k.pending ≡ pos (length k.queue + length k.batch)
  pub queue_bounded : length k.queue ≤ analytics_queue_size
  pub batch_bounded : length k.batch ≤ analytics_batch_size
  pub attempts_bounded : k.attempts < analytics_max_attempts

abbrev pub Counts : Analytics → Type 0
Counts a = IsCounted (work a)

module _ {A : Type 0} where
  abbrev pub Good : Outcome A → Type 0
  Good (done a t w) = Counts t
  Good (failed t w) = Counts t

  abbrev pub Guards : M A → Type 0
  Guards m = (s : Analytics) (w : Answers) → Counts s → Good (m s w)

  same-Good : (s : Analytics) (o : Outcome A) → SameWork s o → Counts s → Good o
  same-Good s (done a t w) h v = subst IsCounted (sym h) v
  same-Good s (failed t w) h v = subst IsCounted (sym h) v

  pub Keeps-Guards : (m : M A) → Keeps m → Guards m
  Keeps-Guards m h s w v = same-Good s (m s w) (h s w) v

  pub elim-Guards :
      (b : Bool) (m n : M A)
      → (b ≡ true → Guards m)
      → (b ≡ false → Guards n)
      → Guards (elim b [ true ↦ m | false ↦ n ])
  elim-Guards true m n h k = h refl
  elim-Guards false m n h k = k refl

  pub elim-Good :
      (b : Bool) (m n : M A) (s : Analytics) (w : Answers)
      → (b ≡ true → Good (m s w))
      → (b ≡ false → Good (n s w))
      → let chosen : M A = elim b [ true ↦ m | false ↦ n ] in Good (chosen s w)
  elim-Good true m n s w h k = h refl
  elim-Good false m n s w h k = k refl

ended_well-Good : {A : Type 0} (o : Outcome A) → Good o → Good (ended_well o)
ended_well-Good (done a t w) v = v
ended_well-Good (failed t w) v = v

pub succeeds-Guards : {A : Type 0} (m : M A) → Guards m → Guards (succeeds m)
unfolding succeeds
succeeds-Guards m h s w v = ended_well-Good (m s w) (h s w v)

module _ {A B : Type 0} where
  after-Good :
      (f : A → M B) (o : Outcome A)
      → Good o
      → ((a : A) → Guards (f a))
      → Good (elim o [ done a t v ↦ f a t v | failed t v ↦ failed t v ])
  after-Good f (done a t v) h k = k a t v h
  after-Good f (failed t v) h k = h

  pub bind-Guards : (m : M A) (f : A → M B) → Guards m → ((a : A) → Guards (f a)) → Guards (m >>= f)
  bind-Guards m f h k s w v = after-Good f (m s w) (h s w v) k

pub clear_batch-Counts : (a : Analytics) → Counts a → Counts (clear_batch a)
clear_batch-Counts a v = record {
  counted = λ live. rw (v.counted live) (pos_sub _ _ (omega arith) ∙ ap pos (omega arith));
  queue_bounded = v.queue_bounded;
  batch_bounded = omega arith;
  attempts_bounded = omega arith;
}

pub drop_events-Counts : (n : ℕ) (a : Analytics) → Counts a → Counts (drop_events n a)
unfolding drop_events
drop_events-Counts n a v = record {
  counted = v.counted;
  queue_bounded = v.queue_bounded;
  batch_bounded = v.batch_bounded;
  attempts_bounded = v.attempts_bounded;
}

pub fail_attempt-Counts : (a : Analytics) → Counts a → Counts (fail_attempt a)
fail_attempt-Counts a v = elim (Bool-cases (leb analytics_max_attempts (a.attempts + 1))) [
  | inl e ↦ rw e (
      clear_batch-Counts (drop_events (length a.batch) a) (drop_events-Counts (length a.batch) a v))
  | inr e ↦ rw e (record {
    counted = v.counted;
    queue_bounded = v.queue_bounded;
    batch_bounded = v.batch_bounded;
    attempts_bounded = ground arith;
  })
]

pub settle-Counts : (ok : Bool) (a : Analytics) → Counts a → Counts (settle ok a)
unfolding disconnect failure
settle-Counts true a v = v
settle-Counts false a v = v

move_from :
    (queue : List QueuedAnalyticsEvent) (a : Analytics)
    → a.queue ≡ queue
    → length a.batch < analytics_batch_size
    → Counts a
    → Counts (move_first queue a)
move_from [] a e room v = v
move_from (queued ∷ rest) a e room v =
    let same : length a.queue ≡ suc (length rest) = ap length e in
    let longer = length-append a.batch (queued.event ∷ []) in
    let moved : IsCounted (record (work a) { queue = rest; batch = a.batch ++ queued.event ∷ [] }) =
      record {
        counted = λ live. v.counted live ∙ ap pos (omega (arith, same, longer));
        queue_bounded = omega (arith, same, v.queue_bounded);
        batch_bounded = omega (arith, longer);
        attempts_bounded = v.attempts_bounded;
      } in
    elim (Bool-cases (is_empty a.batch)) [ inl f ↦ rw f moved | inr f ↦ rw f moved ]

pub move_first-Counts :
    (a : Analytics)
    → length a.batch < analytics_batch_size
    → Counts a
    → Counts (move_first a.queue a)
move_first-Counts a room v = move_from a.queue a refl room v

module _ {A : Type 0} where
  pub final-Counts : (o : Outcome A) → Good o → Counts (final o)
  final-Counts (done a s w) v = v
  final-Counts (failed s w) v = v

pub if-Counts :
    (b : Bool) (x y : Analytics)
    → (b ≡ true → Counts x)
    → (b ≡ false → Counts y)
    → Counts (if b then x else y)
if-Counts true x y h k = h refl
if-Counts false x y h k = k refl
