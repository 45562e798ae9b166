-- ===== src/Analytics/Worker/Drained.antt =====
-- The shutdown of the worker ends: the case of a.stop in run of internal/app/analytics.go.
use tmpmail_fyi.Common.{
  ltb, if◌then◌else◌, Bool-cases, length, ℕ, zero, suc, ◌+◌, ◌≤◌, ◌<◌, ◌≡◌, refl, sym, ap, ◌∙◌, inl,
  inr, Bool, true, false, not, ◌&&◌, List, [], ◌∷◌, ◌++◌, arith,
}
use tmpmail_fyi.Config.{Config}
use tmpmail_fyi.Analytics.State.{
  AnalyticsEvent, QueuedAnalyticsEvent, Analytics, analytics_batch_size, Answers, Outcome, M, pure,
  done, failed,
}
use tmpmail_fyi.Analytics.Tables.{}
use tmpmail_fyi.Analytics.Worker.{is_empty, move_first, fill_batch, write, drain}
use tmpmail_fyi.Analytics.Worker.Quiet.{}
use tmpmail_fyi.Analytics.Worker.Written.{Writes, write-Writes}

-- How many rounds are left at most: a full batch takes one before the queue is touched.
abbrev rounds : Analytics → ℕ
rounds a = length a.queue + (if ltb (length a.batch) analytics_batch_size then 0 else 1)

-- What a move does to a queue that is not empty.
record IsMoved (queue : List QueuedAnalyticsEvent) (t : Analytics) : Type 0 where
  shorter : length t.queue < length queue
  held : is_empty t.batch ≡ false

append-held : (xs : List AnalyticsEvent) (e : AnalyticsEvent) → is_empty (xs ++ e ∷ []) ≡ false
append-held [] e = refl
append-held (x ∷ xs) e = refl

move_first-IsMoved :
    (queue : List QueuedAnalyticsEvent) (a : Analytics)
    → is_empty queue ≡ false
    → IsMoved queue (move_first queue a)
move_first-IsMoved [] a h = absurd cc
move_first-IsMoved (queued ∷ rest) a h = by_batch (is_empty a.batch)
  where
    by_batch :
        (x : Bool)
        → let b : Analytics = record a { queue = rest; batch = a.batch ++ queued.event ∷ [] } in
          IsMoved (queued ∷ rest) (if x then record b { backlog_since = queued.queued_at } else b)
    by_batch true = record { shorter = omega arith; held = append-held a.batch queued.event }
    by_batch false = record { shorter = omega arith; held = append-held a.batch queued.event }

-- Filling the batch takes nothing away from it.
record IsFilled (a t : Analytics) : Type 0 where
  no_longer : length t.queue ≤ length a.queue
  still_held : is_empty a.batch ≡ false → is_empty t.batch ≡ false

fill_batch-IsFilled : (fuel : ℕ) (a : Analytics) → IsFilled a (fill_batch fuel a)
unfolding fill_batch
fill_batch-IsFilled zero a = record { no_longer = omega arith; still_held = λ h. h }
fill_batch-IsFilled (suc fuel) a =
    by_more (ltb (length a.batch) analytics_batch_size) (is_empty a.queue) refl
      (fill_batch-IsFilled fuel (move_first a.queue a))
  where
    by_more :
        (room empty : Bool)
        → is_empty a.queue ≡ empty
        → IsFilled (move_first a.queue a) (fill_batch fuel (move_first a.queue a))
        → IsFilled a (elim (room && not empty) as (λ _. Analytics) [
          | true ↦ fill_batch fuel (move_first a.queue a)
          | false ↦ a
        ])
    by_more true false e rest =
        let moved = move_first-IsMoved a.queue a e in
        record {
          no_longer = omega (arith, moved.shorter, rest.no_longer);
          still_held = λ _. rest.still_held moved.held;
        }
    by_more true true e rest = record { no_longer = omega arith; still_held = λ h. h }
    by_more false empty e rest = record { no_longer = omega arith; still_held = λ h. h }

fill_batch-IsMoved :
    (fuel : ℕ) (a : Analytics)
    → ltb (length a.batch) analytics_batch_size ≡ true
    → is_empty a.queue ≡ false
    → IsMoved a.queue (fill_batch (suc fuel) a)
unfolding fill_batch
fill_batch-IsMoved fuel a room full =
    let moved = move_first-IsMoved a.queue a full in
    let filled = fill_batch-IsFilled fuel (move_first a.queue a) in
    rw (fill_batch, room, full)
      (record {
        shorter = omega (arith, moved.shorter, filled.no_longer);
        held = filled.still_held moved.held;
      })

elim-stops :
    (b : Bool) (m : M (Unit {0})) (a : Analytics) (w : Answers)
    → b ≡ false
    → let chosen : M (Unit {0}) = elim b [ false ↦ pure tt | true ↦ m ] in chosen a w ≡ done tt a w
elim-stops true m a w h = absurd cc
elim-stops false m a w h = refl

elim-goes :
    (b : Bool) (m : M (Unit {0})) (a : Analytics) (w : Answers)
    → b ≡ true
    → let chosen : M (Unit {0}) = elim b [ false ↦ pure tt | true ↦ m ] in chosen a w ≡ m a w
elim-goes true m a w h = refl
elim-goes false m a w h = absurd cc

-- Nothing is left to do.
abbrev IsIdle : Analytics → Type 0
IsIdle a = (not (is_empty a.queue) && a.connected) ≡ false

no_queue :
    (queue : List QueuedAnalyticsEvent) (c : Bool)
    → length queue ≤ 0
    → (not (is_empty queue) && c) ≡ false
no_queue [] c h = refl
no_queue (x ∷ queue) c h = absurd (omega arith)

full_held :
    (batch : List AnalyticsEvent)
    → ltb (length batch) analytics_batch_size ≡ false
    → is_empty batch ≡ false
full_held [] h = absurd cc
full_held (e ∷ batch) h = refl

-- What a round leaves: the end, or fewer rounds.
abbrev Progress : ℕ → Outcome (Unit {0}) → Type 0
Progress n (done u t v) = t.connected ≡ true → rounds t < n
Progress n (failed t v) = ⊥

Writes-Progress :
    (n : ℕ) (b : Analytics) (o : Outcome (Unit {0}))
    → length b.queue < n
    → Writes b o
    → Progress n o
Writes-Progress n b (done u t v) h k = λ live.
    let none_held : length t.batch ≡ 0 = ap length (k.emptied live) in
    ground (arith, none_held, k.queue_left, h)
Writes-Progress n b (failed t v) h k = elim k [ ]

and_false : (b : Bool) → (b && false) ≡ false
and_false true = refl
and_false false = refl

module _ (cfg : Config) (now : ℕ) where
  idle-drain : (n : ℕ) (a : Analytics) (w : Answers) → IsIdle a → drain cfg now n a w ≡ done tt a w
  unfolding drain
  idle-drain zero a w h = refl
  idle-drain (suc n) a w h = elim-stops (not (is_empty a.queue) && a.connected) _ a w h

  round-Progress :
      (a : Analytics) (w : Answers)
      → is_empty a.queue ≡ false
      → Progress (rounds a) (write cfg now (fill_batch analytics_batch_size a) w)
  round-Progress a w full =
      let b = fill_batch analytics_batch_size a in
      elim (Bool-cases (ltb (length a.batch) analytics_batch_size)) [
        | inl room ↦
            let moved : IsMoved a.queue b = fill_batch-IsMoved 127 a room full in
            Writes-Progress (rounds a) b (write cfg now b w) (omega (arith, moved.shorter))
              (write-Writes cfg now b w moved.held)
        | inr no_room ↦
            let filled = fill_batch-IsFilled analytics_batch_size a in
            Writes-Progress (rounds a) b (write cfg now b w)
              (ground (arith, no_room, filled.no_longer))
              (write-Writes cfg now b w (filled.still_held (full_held a.batch no_room)))
      ]

  -- One round, and the same rest on both sides.
  same_rest :
      (n m r : ℕ) (o : Outcome (Unit {0}))
      → Progress r o
      → ((t : Analytics) (v : Answers) → rounds t < r → drain cfg now n t v ≡ drain cfg now m t v)
      → let rest : ℕ → Outcome (Unit {0}) =
          λ k. elim o [ done u t v ↦ drain cfg now k t v | failed t v ↦ failed t v ] in
        rest n ≡ rest m
  same_rest n m r (done u t v) p h = elim (Bool-cases t.connected) [
    | inl live ↦ h t v (p live)
    | inr gone ↦
        let idle : IsIdle t = rw gone (and_false (not (is_empty t.queue))) in
        idle-drain n t v idle ∙ sym (idle-drain m t v idle)
  ]
  same_rest n m r (failed t v) p h = elim p [ ]

  drain-enough :
      (n m : ℕ) (a : Analytics) (w : Answers)
      → rounds a ≤ n
      → rounds a ≤ m
      → drain cfg now n a w ≡ drain cfg now m a w
  unfolding drain
  drain-enough zero m a w h k =
      let idle : IsIdle a = no_queue a.queue a.connected (omega (arith, h)) in
      sym (idle-drain m a w idle)
  drain-enough (suc n) zero a w h k =
      let idle : IsIdle a = no_queue a.queue a.connected (omega (arith, k)) in
      idle-drain (suc n) a w idle
  drain-enough (suc n) (suc m) a w h k = elim (Bool-cases (not (is_empty a.queue) && a.connected)) [
    | inr idle ↦ idle-drain (suc n) a w idle ∙ sym (idle-drain (suc m) a w idle)
    | inl goes ↦
        elim-goes (not (is_empty a.queue) && a.connected) _ a w goes
        ∙ same_rest n m (rounds a) (write cfg now (fill_batch analytics_batch_size a) w)
            (round-Progress a w (has_queue (is_empty a.queue) a.connected goes))
            (λ t v l. drain-enough n m t v (omega (arith, h, l)) (omega (arith, k, l)))
        ∙ sym (elim-goes (not (is_empty a.queue) && a.connected) _ a w goes)
  ]
    where
      has_queue : (b c : Bool) → (not b && c) ≡ true → b ≡ false
      has_queue true c e = absurd cc
      has_queue false c e = refl

  -- The shutdown's loop ends by itself, whatever writes fail: more rounds than one for each event in
  -- the queue and one for a full batch change nothing.
  pub drain_lem :
      (extra : ℕ) (a : Analytics) (w : Answers)
      → drain cfg now (suc (length a.queue) + extra) a w ≡ drain cfg now (suc (length a.queue)) a w
  drain_lem extra a w =
      drain-enough (suc (length a.queue) + extra) (suc (length a.queue)) a w (ground arith)
        (ground arith)
