-- ===== src/Store/Cleanup.antt =====
-- Removal of expired messages: Cleanup and cleanupBatchLocked of internal/app/store.go. Times are in
-- seconds.
pub mod Deletes
pub mod Complete
use tmpmail_fyi.Common.{
  ltb, leb, if◌then◌else◌, length, take, keep_if, ◌-ℤ◌, pos, ℕ, zero, suc, ◌+◌, Bool, false, not,
  Option, none, some, List, [], ◌∷◌,
}
use tmpmail_fyi.Store.State.{
  Row, Error, M, ◌>>=◌, ◌>>◌, pure, fail, get, modify, attempt, Try, try, in_tx, out_of_fuel, good,
  bad,
}
use tmpmail_fyi.Store.Pending.{cleanup_batch_size, drain_pending, count_error}
use tmpmail_fyi.Store.Evict.{delete_message}

-- The rows of a batch, with the bytes that they release.
unfoldable pub delete_all : List Row → M (ℕ × ℕ)
unfolding delete_message
delete_all [] = pure (0, 0)
delete_all (r ∷ rows) = do
  released ← delete_message r.id r.blob_id
  (count, bytes) ← delete_all rows
  pure (suc count, released + bytes)

-- SELECT … WHERE expires_at <= ? LIMIT ?; SQLite may return the rows in any order.
abbrev pub expired_rows : ℕ → List Row → List Row
expired_rows before rows = take cleanup_batch_size (keep_if (λ r. leb r.expires_at before) rows)

unfoldable pub delete_batch : ℕ → M (ℕ × ℕ)
unfolding attempt delete_all
delete_batch before = do attempt; s ← get; attempt; delete_all (expired_rows before s.db.messages)

-- The batch, and the error of the drain that follows it.
pub record Batch : Type 0 where
  pub expired : ℕ
  pub expired_bytes : ℕ
  pub error : Option Error

unfoldable pub cleanup_batch : ℕ → M Batch
unfolding in_tx delete_batch drain_pending
cleanup_batch before = do
  (count, bytes) ← in_tx (delete_batch before)
  modify λ s. record s { stored_messages = s.stored_messages -ℤ pos count }
  error ← drain_pending
  pure (record { expired = count; expired_bytes = bytes; error = error })

-- A round of Cleanup under the lock; its error, and whether more rows may have expired.
pub record Round : Type 0 where
  pub error : Option Error
  pub full : Bool

unfoldable pub close_round : ℕ → Try Batch → M Round
close_round now (bad e) = do
  modify λ s. record s { last_cleanup = some now; cleanup_error_count = s.cleanup_error_count + 1 }
  pure (record { error = some e; full = false })
close_round now (good batch) = do
  modify λ s. count_error batch.error (record s { last_cleanup = some now })
  pure (record { error = batch.error; full = not (ltb batch.expired cleanup_batch_size) })

unfoldable pub cleanup_round : ℕ → ℕ → M Round
unfolding try cleanup_batch close_round
cleanup_round before now = do batch ← try (cleanup_batch before); close_round now batch

-- After a round: its error, another round, or the end.
unfoldable pub go_on : M (Unit {0}) → Round → M (Unit {0})
go_on again r = elim r.error [ some e ↦ fail e | none ↦ if r.full then again else pure tt ]

unfoldable pub cleanup_loop : ℕ → (ℕ → ℕ) → ℕ → M (Unit {0})
unfolding cleanup_round go_on
cleanup_loop before now zero = fail out_of_fuel
cleanup_loop before now (suc fuel) = do
  r ← cleanup_round before (now fuel)
  go_on (cleanup_loop before now fuel) r

-- A full batch removes rows, so there are at most as many rounds as rows. The clock is read in each.
unfoldable pub cleanup : ℕ → (ℕ → ℕ) → M (Unit {0})
unfolding cleanup_loop
cleanup before now = do s ← get; cleanup_loop before now (suc (length s.db.messages))
