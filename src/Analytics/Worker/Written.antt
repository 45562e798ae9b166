-- ===== src/Analytics/Worker/Written.antt =====
-- What a write of the worker leaves: the function write in run of internal/app/analytics.go.
use tmpmail_fyi.Common.{
  leb, if◌then◌else◌, length, ℕ, ◌+◌, ◌≡◌, refl, sym, ap, subst, ◌∙◌, Bool, true, false, not, ◌||◌,
  [],
}
use tmpmail_fyi.Config.{Config}
use tmpmail_fyi.Analytics.State.{
  Analytics, analytics_max_attempts, Answers, Outcome, M, ◌>>=◌, ◌>>◌, pure, modify, succeeds, done,
  failed,
}
use tmpmail_fyi.Analytics.Tables.{write_batch, maintain}
use tmpmail_fyi.Analytics.Worker.{
  failure, disconnect, drop_events, settle, is_empty, clear_batch, fail_attempt, ingested, write,
}
use tmpmail_fyi.Analytics.Worker.Quiet.{
  Work, work, write_batch-Keeps, maintain-Keeps, succeeds-Ended,
}

-- A write that had something to write: the queue is left, and the batch is empty or the database gone.
pub record IsWritten (b t : Analytics) : Type 0 where
  pub queue_left : length t.queue ≡ length b.queue
  pub emptied : t.connected ≡ true → t.batch ≡ []

abbrev pub Writes : Analytics → Outcome (Unit {0}) → Type 0
Writes b (done u t w) = IsWritten b t
Writes b (failed t w) = ⊥

bind-Writes :
    (b : Analytics) (m : M Bool) (f : Bool → M (Unit {0})) (s : Analytics) (w : Answers) (ok : Bool)
    (t : Analytics) (v : Answers)
    → m s w ≡ done ok t v
    → Writes b (f ok t v)
    → Writes b ((m >>= f) s w)
bind-Writes b m f s w ok t v e h =
    subst
      (λ o.
        Writes b
          (elim o as (λ _. Outcome (Unit {0})) [ done a u x ↦ f a u x | failed u x ↦ failed u x ]))
      (sym e) h

connected_full : (x y : Bool) → x ≡ false → (x || not y) ≡ true → y ≡ true → ⊥
connected_full true y h e k = cc
connected_full false true h e k = cc
connected_full false false h e k = cc

settle-IsWritten :
    (kept : Bool) (b t : Analytics)
    → length t.queue ≡ length b.queue
    → t.batch ≡ []
    → IsWritten b (settle kept t)
unfolding disconnect failure
settle-IsWritten true b t q e = record { queue_left = q; emptied = λ _. e }
settle-IsWritten false b t q e = record { queue_left = q; emptied = λ _. e }

disconnect-IsWritten :
    (b t : Analytics) → length t.queue ≡ length b.queue → IsWritten b (disconnect t)
unfolding disconnect
disconnect-IsWritten b t q = record { queue_left = q; emptied = λ live. absurd cc }

fail_attempt-queue : (a : Analytics) → (fail_attempt a).queue ≡ a.queue
unfolding drop_events
fail_attempt-queue a = by_attempts (leb analytics_max_attempts (a.attempts + 1))
  where
    by_attempts :
        (b : Bool)
        → (if b
            then clear_batch (drop_events (length a.batch) a)
            else record a { attempts = a.attempts + 1 }).queue
          ≡ a.queue
    by_attempts true = refl
    by_attempts false = refl

module _ (cfg : Config) (now : ℕ) where
  upkeep-Writes :
      (b t : Analytics) (v : Answers)
      → length t.queue ≡ length b.queue
      → t.batch ≡ []
      → Writes b ((do kept ← succeeds (maintain cfg); modify (settle kept)) t v)
  upkeep-Writes b t v q e =
      let ended = succeeds-Ended (maintain cfg) t v (maintain-Keeps cfg) in
      let queue : length ended.after.queue ≡ length b.queue =
        ap (λ k. length (Work.queue k)) ended.same ∙ q in
      bind-Writes b (succeeds (maintain cfg)) _ t v ended.ok ended.after ended.answers_left
        ended.ends (settle-IsWritten ended.ok b ended.after queue (ap Work.batch ended.same ∙ e))

  pub write-Writes :
      (b : Analytics) (w : Answers) → is_empty b.batch ≡ false → Writes b (write cfg now b w)
  unfolding write failure
  write-Writes b w full = by_connection (is_empty b.batch || not b.connected) refl
    where
      written-Writes :
          (ok : Bool) (t : Analytics) (v : Answers)
          → work t ≡ work b
          → Writes b (
              (elim ok as (λ _. M (Unit {0})) [
                | false ↦ modify λ c. disconnect (fail_attempt (failure c))
                | true ↦ do
                  modify (ingested now)
                  kept ← succeeds (maintain cfg)
                  modify (settle kept)
              ])
                t v)
      written-Writes false t v same =
          disconnect-IsWritten b (fail_attempt (failure t))
            (ap length (fail_attempt-queue (failure t)) ∙ ap (λ k. length (Work.queue k)) same)
      written-Writes true t v same =
          upkeep-Writes b (ingested now t) v (ap (λ k. length (Work.queue k)) same) refl

      by_connection :
          (x : Bool)
          → (is_empty b.batch || not b.connected) ≡ x
          → Writes b (
              (elim x as (λ _. M (Unit {0})) [
                | true ↦ pure tt
                | false ↦ do
                  written ← succeeds (write_batch cfg now b.batch)
                  elim written [
                    | false ↦ modify λ c. disconnect (fail_attempt (failure c))
                    | true ↦ do
                      modify (ingested now)
                      kept ← succeeds (maintain cfg)
                      modify (settle kept)
                  ]
              ])
                b w)
      by_connection true e = record {
        queue_left = refl;
        emptied = λ live. absurd (connected_full _ _ full e live);
      }
      by_connection false e =
          let ended =
            succeeds-Ended (write_batch cfg now b.batch) b w (write_batch-Keeps cfg now b.batch) in
          bind-Writes b (succeeds (write_batch cfg now b.batch)) _ b w ended.ok ended.after
            ended.answers_left ended.ends
            (written-Writes ended.ok ended.after ended.answers_left ended.same)
