-- ===== src/Analytics/Worker/Bounded.antt =====
-- The counters of the queue and the batch, over the worker's steps and the calls of Record.
use tmpmail_fyi.Common.{
  ltb, ◌==◌, Bool-cases, length, length-append, Bytes, ◌+ℤ◌, ◌-ℤ◌, ltb_ℤ, pos-+ℤ, pos_sub, pos, ℕ,
  zero, suc, ◌+◌, ◌≡◌, refl, sym, ap, ◌∙◌, inl, inr, Bool, true, false, not, ◌&&◌, ◌||◌, List, [],
  ◌∷◌, arith,
}
use tmpmail_fyi.Config.{Config}
use tmpmail_fyi.Analytics.State.{
  AnalyticsEvent, Tables, QueuedAnalyticsEvent, Analytics, analytics_queue_size,
  analytics_batch_size, Answers, M, ◌>>=◌, ◌>>◌, pure, modify, attempt, succeeds,
}
use tmpmail_fyi.Analytics.Tables.{write_batch, prune, maintain}
use tmpmail_fyi.Analytics.Worker.{
  failure, disconnect, drop_events, settle, is_kind, count_pending, send, record_event, is_empty,
  fail_attempt, ingested, move_first, fill_batch, open_database, write, receive, retry, clean_up,
  drain, stop, Event, worked, step, Happening, run, fresh_analytics, with_defaults, open_analytics,
  recorded, received, flush_tick, retry_tick, cleanup_tick, close_called, stopped,
}
use tmpmail_fyi.Analytics.Worker.Quiet.{
  Work, work, Keeps, bind-Keeps, attempt-Keeps, write_batch-Keeps, maintain-Keeps, upkeep-Keeps,
}
use tmpmail_fyi.Analytics.Worker.Counted.{
  IsCounted, Counts, Guards, Keeps-Guards, elim-Guards, elim-Good, succeeds-Guards, bind-Guards,
  clear_batch-Counts, drop_events-Counts, fail_attempt-Counts, settle-Counts, move_first-Counts,
  final-Counts, if-Counts,
}

module _ (cfg : Config) (now : ℕ) where
  upkeep-Guards : (m : M (Unit {0})) → Keeps m → Guards (do kept ← succeeds m; modify (settle kept))
  upkeep-Guards m h =
      bind-Guards (succeeds m) (λ kept. modify (settle kept)) (succeeds-Guards m (Keeps-Guards m h))
        λ kept s w v. settle-Counts kept s v

  write-Guards : Guards (write cfg now)
  unfolding write disconnect failure
  write-Guards a w v =
      elim-Guards (is_empty a.batch || not a.connected) (pure tt) _ (λ _ s w k. k)
        (λ _.
          bind-Guards (succeeds (write_batch cfg now a.batch)) _
            (succeeds-Guards _ (Keeps-Guards _ (write_batch-Keeps cfg now a.batch)))
            λ written. written-Guards written)
        a w v
    where
      written-Guards :
          (written : Bool)
          → Guards (elim written [
            | false ↦ modify λ b. disconnect (fail_attempt (failure b))
            | true ↦ do modify (ingested now); kept ← succeeds (maintain cfg); modify (settle kept)
          ])
      written-Guards false = λ s w k. fail_attempt-Counts (failure s) k
      written-Guards true =
          bind-Guards (modify (ingested now)) _ (λ s w k. clear_batch-Counts s k)
            λ _. upkeep-Guards (maintain cfg) (maintain-Keeps cfg)

  open_database-Guards : Guards (open_database cfg now)
  unfolding open_database disconnect failure
  open_database-Guards =
      bind-Guards (succeeds opening) _
        (succeeds-Guards opening (Keeps-Guards opening opening-Keeps)) λ ready. opened-Guards ready
    where
      opening : M (Unit {0})
      opening = attempt >> attempt >> attempt

      opening-Keeps : Keeps opening
      opening-Keeps =
          bind-Keeps _ _ (bind-Keeps _ _ attempt-Keeps λ _. attempt-Keeps) λ _. attempt-Keeps

      opened-Guards :
          (ready : Bool)
          → Guards (elim ready [
            | false ↦ modify failure
            | true ↦ do
              modify
                  λ a. record a { connected = true; status = record a.status { available = true } }
              kept ← succeeds (prune cfg now >> maintain cfg)
              modify (settle kept)
          ])
      opened-Guards false = λ s w v. v
      opened-Guards true =
          bind-Guards (modify _) _ (λ s w v. v)
            λ _. upkeep-Guards (prune cfg now >> maintain cfg) (upkeep-Keeps cfg now)

  clean_up-Guards : Guards (clean_up cfg now)
  unfolding clean_up
  clean_up-Guards a w v =
      elim-Guards a.connected _ (pure tt)
        (λ _. upkeep-Guards (prune cfg now >> maintain cfg) (upkeep-Keeps cfg now)) (λ _ s w k. k) a
        w v

  retry-Guards : Guards (retry cfg now)
  unfolding retry
  retry-Guards a w v =
      bind-Guards (elim a.connected [ true ↦ pure tt | false ↦ open_database cfg now ]) _
        (elim-Guards a.connected (pure tt) (open_database cfg now) (λ _ s w k. k)
          λ _. open_database-Guards)
        (λ _ b w k.
          elim-Guards (not b.connected && not (is_empty b.batch)) (modify fail_attempt)
            (write cfg now) (λ _ s w k. fail_attempt-Counts s k) (λ _. write-Guards) b w k)
        a w v

  -- The room is tested before the move.
  receive-Guards : Guards (receive cfg now)
  unfolding receive
  receive-Guards a w v =
      elim-Good (ltb (length a.batch) analytics_batch_size) _ (pure tt) a w
        (λ room.
          let b = move_first a.queue a in
          elim-Guards (not (is_empty a.queue) && (length b.batch == analytics_batch_size))
            (write cfg now) (pure tt) (λ _. write-Guards) (λ _ s w k. k) b w
            (move_first-Counts a (ground (arith, room)) v))
        λ _. v

  fill_batch-Counts : (fuel : ℕ) (a : Analytics) → Counts a → Counts (fill_batch fuel a)
  unfolding fill_batch
  fill_batch-Counts zero a v = v
  fill_batch-Counts (suc fuel) a v =
      elim (Bool-cases (ltb (length a.batch) analytics_batch_size && not (is_empty a.queue))) [
        | inl more ↦
            rw (more, fill_batch)
              (fill_batch-Counts fuel (move_first a.queue a) (move_first-Counts a (ground arith) v))
        | inr stays ↦ rw (stays, fill_batch) v
      ]

  drain-Guards : (fuel : ℕ) → Guards (drain cfg now fuel)
  unfolding drain
  drain-Guards zero a w v = v
  drain-Guards (suc fuel) a w v =
      elim-Guards (not (is_empty a.queue) && a.connected) _ (pure tt)
        (λ _.
          bind-Guards (modify (fill_batch analytics_batch_size)) _
            (λ s w k. fill_batch-Counts analytics_batch_size s k)
            λ _. bind-Guards (write cfg now) _ write-Guards λ _. drain-Guards fuel)
        (λ _ s w k. k) a w v

  stop-Guards : Guards (stop cfg now)
  unfolding stop disconnect drop_events
  stop-Guards = bind-Guards (write cfg now) _ write-Guards λ _ a w v.
      bind-Guards (drain cfg now (suc (length a.queue))) _ (drain-Guards (suc (length a.queue)))
        (λ _ b w k. record {
          counted = λ live. cc;
          queue_bounded = k.queue_bounded;
          batch_bounded = k.batch_bounded;
          attempts_bounded = k.attempts_bounded;
        })
        a w v

  worked-Counts :
      (m : M (Unit {0})) (w : Answers) (a : Analytics) → Guards m → Counts a → Counts (worked m w a)
  worked-Counts m w a h v = if-Counts a.finished a _ (λ _. v) λ _. final-Counts (m a w) (h a w v)

-- What count_pending leaves: one event more than are held.
abbrev IsRaised : Analytics → Analytics → Type 0
IsRaised a b = work b ≡ record (work a) { pending = a.pending +ℤ pos 1 }

count_pending-IsRaised : (now : ℕ) (a : Analytics) → IsRaised a (count_pending now a)
count_pending-IsRaised now a =
    elim (Bool-cases (ltb_ℤ (pos 0) a.pending || ltb_ℤ a.pending (pos 0))) [
      | inl e ↦ simp e
      | inr e ↦ simp e
    ]

sent-Counts :
    (queued : QueuedAnalyticsEvent) (a b : Analytics)
    → IsRaised a b
    → Counts a
    → Counts (send queued b)
unfolding drop_events
sent-Counts queued a b same v =
    let held : a.finished ≡ false → b.pending ≡ pos (length a.queue + length a.batch + 1) =
      λ live. ap Work.pending same ∙ ap (λ n. n +ℤ pos 1) (v.counted live) ∙ pos-+ℤ _ 1 in
    let live_before : b.finished ≡ false → a.finished ≡ false =
      λ live. sym (ap Work.finished same) ∙ live in
    let queue_same : length b.queue ≡ length a.queue = ap (λ k. length (Work.queue k)) same in
    let batch_same : length b.batch ≡ length a.batch = ap (λ k. length (Work.batch k)) same in
    let attempts_same : b.attempts ≡ a.attempts = ap Work.attempts same in
    if-Counts (ltb (length b.queue) analytics_queue_size) _ _
      (λ room. record {
        counted = λ live.
            held (live_before live)
            ∙ ap pos (omega (arith, queue_same, batch_same, length-append b.queue (queued ∷ [])));
        queue_bounded = ground (arith, queue_same, room, length-append b.queue (queued ∷ []));
        batch_bounded = omega (arith, batch_same, v.batch_bounded);
        attempts_bounded = omega (arith, attempts_same, v.attempts_bounded);
      })
      (λ full. record {
        counted = λ live.
            ap (λ n. n -ℤ pos 1) (held (live_before live))
            ∙ pos_sub _ 1 (omega arith)
            ∙ ap pos (omega arith);
        queue_bounded = omega (arith, queue_same, v.queue_bounded);
        batch_bounded = omega (arith, batch_same, v.batch_bounded);
        attempts_bounded = omega (arith, attempts_same, v.attempts_bounded);
      })

module _ (to_valid_utf8 : Bytes → Bytes) (cfg : Config) where
  record_event-Counts :
      (now : ℕ) (fresh : Bytes) (e : AnalyticsEvent) (a : Analytics)
      → Counts a
      → Counts (record_event to_valid_utf8 cfg now fresh e a)
  unfolding record_event
  record_event-Counts now fresh e a v =
      if-Counts (not cfg.analytics_enabled || a.closed) a _ (λ _. v)
        λ _.
          if-Counts (not (is_kind e.kind)) (drop_events 1 a) _ (λ _. drop_events-Counts 1 a v)
            λ _. sent-Counts _ a (count_pending now a) (count_pending-IsRaised now a) v

  step-Counts :
      (now : ℕ) (w : Answers) (e : Event) (a : Analytics)
      → Counts a
      → Counts (step to_valid_utf8 cfg now w e a)
  unfolding step
  step-Counts now w (recorded at fresh e) a v = record_event-Counts at fresh e a v
  step-Counts now w received a v =
      worked-Counts cfg now (receive cfg now) w a (receive-Guards cfg now) v
  step-Counts now w flush_tick a v =
      worked-Counts cfg now (write cfg now) w a (write-Guards cfg now) v
  step-Counts now w retry_tick a v =
      worked-Counts cfg now (retry cfg now) w a (retry-Guards cfg now) v
  step-Counts now w cleanup_tick a v =
      worked-Counts cfg now (clean_up cfg now) w a (clean_up-Guards cfg now) v
  step-Counts now w close_called a v = v
  step-Counts now w stopped a v =
      if-Counts a.closed _ a (λ _. worked-Counts cfg now (stop cfg now) w a (stop-Guards cfg now) v)
        λ _. v

  run-Counts :
      (happenings : List Happening) (a : Analytics)
      → Counts a
      → Counts (run to_valid_utf8 cfg happenings a)
  unfolding run
  run-Counts [] a v = v
  run-Counts (h ∷ rest) a v =
      run-Counts rest (step to_valid_utf8 cfg h.now h.answers h.event a)
        (step-Counts h.now h.answers h.event a v)

-- Enabled analytics that were opened, on any file and with any answers of the database, are IsCounted
-- after any steps of the worker, of the callers of Record and of Close in any order.
pub run-IsCounted :
    (to_valid_utf8 : Bytes → Bytes) (cfg : Config) (now : ℕ) (schedule : Answers) (tables : Tables)
    (happenings : List Happening)
    → IsCounted (
        work (
          run to_valid_utf8
            (with_defaults cfg)
            happenings
            (open_analytics cfg now schedule tables)))
unfolding open_analytics
run-IsCounted to_valid_utf8 cfg now schedule tables happenings =
    let fresh : Counts (fresh_analytics tables) = record {
      counted = λ live. refl;
      queue_bounded = omega arith;
      batch_bounded = omega arith;
      attempts_bounded = omega arith;
    } in
    run-Counts to_valid_utf8 (with_defaults cfg) happenings (open_analytics cfg now schedule tables)
      (final-Counts (open_database (with_defaults cfg) now (fresh_analytics tables) schedule)
        (open_database-Guards (with_defaults cfg) now (fresh_analytics tables) schedule fresh))
