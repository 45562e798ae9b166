-- ===== src/Store/Cleanup/Complete.antt =====
-- Cleanup as a whole: it ends, spares live mail, and on success leaves no expired row.
use tmpmail_fyi.Common.{
  ltb, Bool-cases, Option-cases, length, all, Bytes, ◌-ℤ◌, pos, ℕ, zero, suc, ◌+◌, ◌≤◌, ◌<◌, ◌≡◌,
  refl, sym, ap, subst, ◌∙◌, inl, inr, true, false, not, none, some, arith,
}
use tmpmail_fyi.Store.State.{Row, Store, Error, IsReal, RealOption, Schedule, M, in_tx, good, bad}
use tmpmail_fyi.Store.Tables.{find_row}
use tmpmail_fyi.Store.Post.{Post, bind-Post, weaken-Post, in_tx-Post, try-Post}
use tmpmail_fyi.Store.Valid.{charged, IsValid, OnlyDb}
use tmpmail_fyi.Store.Pending.{drain_pending, count_error}
use tmpmail_fyi.Store.Pending.Drain.{Never}
use tmpmail_fyi.Store.Pending.Keeps.{Steady, drain_pending-Steady, count_error-Steady}
use tmpmail_fyi.Store.Cleanup.{
  expired_rows, delete_batch, Batch, cleanup_batch, Round, close_round, cleanup_round, go_on,
  cleanup_loop, cleanup,
}
use tmpmail_fyi.Store.Cleanup.Deletes.{
  Removed, Removes, expired_rows-IsBatch, delete_batch-Removes, batch_spares, short_batch_takes,
}

-- The store is valid, the rows that have not expired are as before, and no row is new.
pub record Swept (before : ℕ) (s t : Store) : Type 0 where
  pub valid : IsValid t
  pub spared :
      (id : Bytes) (row : Row)
      → find_row id s.db.messages ≡ some row
      → before < row.expires_at
      → find_row id t.db.messages ≡ some row
  pub subset :
      (id : Bytes) (row : Row)
      → find_row id t.db.messages ≡ some row
      → find_row id s.db.messages ≡ some row

-- No expired row is left.
abbrev pub IsClean : ℕ → Store → Type 0
IsClean before t =
    (id : Bytes) (row : Row) → find_row id t.db.messages ≡ some row → before < row.expires_at

rows_left : (all gone left : ℕ) → all ≡ left + gone → pos all -ℤ pos gone ≡ pos left
rows_left all gone left h = ground arith

lt_of_not_le : (a b : ℕ) → (b ≤ a → ⊥) → a < b
lt_of_not_le a b h = ground arith

module _ (before : ℕ) where
  Swept-refl : (s : Store) → IsValid s → Swept before s s
  Swept-refl s v = record { valid = v; spared = λ id row h k. h; subset = λ id row h. h }

  Swept-trans : (s t u : Store) → Swept before s t → Swept before t u → Swept before s u
  Swept-trans s t u a b = record {
    valid = b.valid;
    spared = λ id row h k. b.spared id row (a.spared id row h k) k;
    subset = λ id row h. a.subset id row (b.subset id row h);
  }

  Swept-Steady : (s t u : Store) → Swept before s t → Steady t u → Swept before s u
  Swept-Steady s t u a (v, same, fault) = record {
    valid = v;
    spared = λ id row h k. ap (find_row id) same.messages ∙ a.spared id row h k;
    subset = λ id row h. a.subset id row (sym (ap (find_row id) same.messages) ∙ h);
  }

  abbrev booked_out : ℕ → Store → Store
  booked_out count t = record t { stored_messages = t.stored_messages -ℤ pos count }

  module _ (s t : Store) (v : IsValid s) (result : ℕ × ℕ)
      (r : Removed (expired_rows before s.db.messages) s.db result t.db) (only : OnlyDb s t) where
    booked_out-IsValid : IsValid (booked_out result.0 t)
    unfolding charged
    booked_out-IsValid = record {
      tables = r.tables;
      messages_booked =
          ap (λ z. z -ℤ pos result.0)
            (ap (λ (x : Store). x.stored_messages) only ∙ v.messages_booked)
          ∙ rows_left (length s.db.messages) result.0 (length t.db.messages)
              (omega (arith, r.left, r.count));
      bytes_booked = λ calm.
          ap (λ (x : Store). x.stored_bytes) only
          ∙ v.bytes_booked (sym (ap (λ (x : Store). x.storage_fault) only) ∙ calm)
          ∙ ap pos (omega (arith, r.bytes, r.queue));
    }

    removed-Swept : Swept before s (booked_out result.0 t)
    removed-Swept = record {
      valid = booked_out-IsValid;
      spared = λ id row h k.
          r.lookup id
          ∙ rw
              (batch_spares before s.db.messages (expired_rows before s.db.messages) id row
                (expired_rows-IsBatch before s.db.messages v.tables.rows_unique) h k)
              h;
      subset = λ id row h. ground (arith, r.lookup id);
    }

    removed-IsClean : result.0 < 256 → IsClean before (booked_out result.0 t)
    removed-IsClean short id row h = lt_of_not_le before row.expires_at λ over. ground (
      arith,
      r.lookup id,
      short_batch_takes before s.db.messages id row (omega (arith, r.count))
          (removed-Swept.subset id row h) over,
    )

  abbrev BatchDone : Store → Batch → Store → Type 0
  BatchDone s b t =
      Swept before s t
      × (length s.db.messages ≡ length t.db.messages + b.expired)
      × (b.expired < 256 → IsClean before t)
      × RealOption b.error

  cleanup_batch-Post :
      (s : Store) (w : Schedule)
      → IsValid s
      → Post (BatchDone s) (λ e t. IsReal e × (t ≡ s)) (cleanup_batch before s w)
  unfolding cleanup_batch
  cleanup_batch-Post s w v =
      bind-Post (Removes (expired_rows before s.db.messages) s) (λ e t. IsReal e × (t ≡ s))
        (λ e t. IsReal e × (t ≡ s)) (BatchDone s) (in_tx (delete_batch before)) _ s w
        (in_tx-Post (λ result t. Removed (expired_rows before s.db.messages) s.db result t.db)
          (delete_batch before) s w λ w₁. delete_batch-Removes before s w₁ v.tables)
        (λ e t h. h)
        λ result t w₁ (r, only).
          let x : Store = booked_out result.0 t in
          let swept : Swept before s x = removed-Swept s t v result r only in
          bind-Post (λ e u. Steady x u × RealOption e) (λ e t. IsReal e × (t ≡ s)) Never
            (BatchDone s) drain_pending _ x w₁ (drain_pending-Steady x w₁ swept.valid)
            (λ e t h. absurd h)
            λ e u w₂ (steady, real). (
              Swept-Steady s x u swept steady,
              omega (arith, r.left, r.count, ap length steady.1.messages),
              (λ short id row h.
                  removed-IsClean s t v result r only short id row
                    (sym (ap (find_row id) steady.1.messages) ∙ h)),
              real,
            )

  abbrev RoundDone : Store → Round → Store → Type 0
  RoundDone s r t =
      Swept before s t
      × (r.full ≡ true → length t.db.messages < length s.db.messages)
      × (r.error ≡ none → r.full ≡ false → IsClean before t)
      × RealOption r.error

  stamped : ℕ → Store → Store
  stamped now t = record t { last_cleanup = some now }

  stamped-Steady : (now : ℕ) (t : Store) → IsValid t → Steady t (stamped now t)
  unfolding stamped
  stamped-Steady now t v = (
    record {
      tables = v.tables;
      messages_booked = v.messages_booked;
      bytes_booked = v.bytes_booked;
    },
    record { messages = refl; blobs = refl; stored_messages = refl },
    refl,
  )

  close_batch-Post :
      (now : ℕ) (s t : Store) (b : Batch) (w : Schedule)
      → BatchDone s b t
      → Post (RoundDone s) Never (close_round now (good b) t w)
  unfolding close_round stamped
  close_batch-Post now s t b w (swept, left, clean, real) =
      let steady : Steady t (count_error b.error (stamped now t)) =
        count_error-Steady t (stamped now t) b.error (stamped-Steady now t swept.valid) in
      (
        Swept-Steady s t (count_error b.error (stamped now t)) swept steady,
        (λ full. omega (arith, left, ap length steady.1.messages, full_count b.expired full)),
        (λ _ short id row h.
            clean (short_count b.expired short) id row
              (sym (ap (find_row id) steady.1.messages) ∙ h)),
        real,
      )
    where
      full_count : (n : ℕ) → not (ltb n 256) ≡ true → 256 ≤ n
      full_count n h = ground arith

      short_count : (n : ℕ) → not (ltb n 256) ≡ false → n < 256
      short_count n h = ground arith

  close_failed-Post :
      (now : ℕ) (s t : Store) (e : Error) (w : Schedule)
      → IsValid s
      → IsReal e × (t ≡ s)
      → Post (RoundDone s) Never (close_round now (bad e) t w)
  unfolding close_round stamped
  close_failed-Post now s t e w v (real, same) =
      subst (λ x. Post (RoundDone s) Never (close_round now (bad e) x w)) (sym same)
        (
          Swept-Steady s s (count_error (some e) (stamped now s)) (Swept-refl s v)
              (count_error-Steady s (stamped now s) (some e) (stamped-Steady now s v)),
          (λ h. cc),
          (λ h k. cc),
          real,
        )

  cleanup_round-Post :
      (now : ℕ) (s : Store) (w : Schedule)
      → IsValid s
      → Post (RoundDone s) Never (cleanup_round before now s w)
  unfolding cleanup_round
  cleanup_round-Post now s w v =
      try-Post (BatchDone s) (λ e t. IsReal e × (t ≡ s)) Never (RoundDone s) (close_round now)
        (cleanup_batch before) s w (cleanup_batch-Post s w v)
        (λ b t w₁ h. close_batch-Post now s t b w₁ h)
        (λ e t w₁ h. close_failed-Post now s t e w₁ v h)

  abbrev pub CleanedUp : Store → Unit {0} → Store → Type 0
  CleanedUp s _ t = Swept before s t × IsClean before t

  abbrev pub SweptError : Store → Error → Store → Type 0
  SweptError s e t = IsReal e × Swept before s t

  go_on-Post :
      (s t : Store) (again : M (Unit {0})) (r : Round) (w : Schedule)
      → RoundDone s r t
      → (r.full ≡ true → Post (CleanedUp t) (SweptError t) (again t w))
      → Post (CleanedUp s) (SweptError s) (go_on again r t w)
  unfolding go_on
  go_on-Post s t again r w (swept, shorter, clean, real) rest = elim (Option-cases r.error) [
    | inr (e, h) ↦ rw (h, go_on) (subst RealOption h real, swept)
    | inl h ↦ elim (Bool-cases r.full) [
      | inr short ↦ rw (h, short, go_on) (swept, clean h short)
      | inl full ↦
          rw (h, full, go_on)
            (weaken-Post (CleanedUp t) (CleanedUp s) (SweptError t) (SweptError s) again t w
              (rest full) (λ _ u (a, b). (Swept-trans s t u swept a, b))
              (λ e u (a, b). (a, Swept-trans s t u swept b)))
    ]
  ]

  cleanup_loop-Post :
      (now : ℕ → ℕ) (fuel : ℕ) (s : Store) (w : Schedule)
      → IsValid s
      → length s.db.messages < fuel
      → Post (CleanedUp s) (SweptError s) (cleanup_loop before now fuel s w)
  unfolding cleanup_loop
  cleanup_loop-Post now zero s w v h = absurd (omega arith)
  cleanup_loop-Post now (suc fuel) s w v h =
      bind-Post (RoundDone s) (SweptError s) Never (CleanedUp s) (cleanup_round before (now fuel)) _
        s w (cleanup_round-Post (now fuel) s w v) (λ e t h. absurd h)
        λ r t w₁ d.
          go_on-Post s t (cleanup_loop before now fuel) r w₁ d
            λ full. cleanup_loop-Post now fuel t w₁ d.0.valid (omega (arith, d.1 full))

-- From any valid store, whatever calls fail, Cleanup ends, keeps the store valid, keeps every message
-- that has not expired, and adds none; if it succeeds, every message left expires after the moment
-- at which it began.
pub cleanup-IsClean :
    (before : ℕ) (now : ℕ → ℕ) (s : Store) (w : Schedule)
    → IsValid s
    → Post (CleanedUp before s) (SweptError before s) (cleanup before now s w)
unfolding cleanup
cleanup-IsClean before now s w v =
    cleanup_loop-Post before now (suc (length s.db.messages)) s w v (omega arith)
