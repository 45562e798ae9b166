-- ===== src/Store/Evict.antt =====
-- Removal of messages inside a transaction: evictTx and deleteMessageTx of internal/app/store.go.
pub mod Deletion
pub mod Oldest
pub mod Bounds
use tmpmail_fyi.Common.{
  leb, if◌then◌else◌, length, keep_if, Bytes, eq_bytes, ℤ, ◌+ℤ◌, ◌-ℤ◌, ltb_ℤ, pos, ℕ, zero, suc,
  ◌+◌, Bool, true, false, not, ◌&&◌, Option, none, some, List, [], ◌∷◌,
}
use tmpmail_fyi.Config.{Config}
use tmpmail_fyi.Store.State.{
  Row, Blob, PendingFile, CleanupStats, no_stats, M, ◌>>=◌, ◌>>◌, pure, fail, get, modify_db, guard,
  or_fail, attempt, limit_exhausted, no_rows, constraint, out_of_fuel,
}
use tmpmail_fyi.Store.Tables.{
  find_blob, delete_blob, release_blob, delete_row, is_pending, insert_pending,
}

-- INSERT INTO pending_deletions: a path that is there already breaks the key.
unfoldable pub queue_file : PendingFile → M (Unit {0})
unfolding attempt is_pending insert_pending
queue_file file = do
  attempt
  s ← get
  guard (not (is_pending file.path s.db.pending)) constraint
  modify_db λ db. record db { pending = insert_pending file db.pending }

-- The last reference moves the blob to the queue, and releases its bytes.
unfoldable pub release_last : Blob → M ℕ
unfolding attempt queue_file delete_blob
release_last blob = do
  queue_file (record { path = blob.path; size = blob.size })
  attempt
  modify_db λ db. record db { blobs = delete_blob blob.id db.blobs }
  pure blob.size

unfoldable pub release_one : Blob → M ℕ
unfolding attempt release_blob
release_one blob = do
  attempt
  modify_db λ db. record db { blobs = release_blob blob.id db.blobs }
  pure 0

unfoldable pub delete_message : Bytes → Bytes → M ℕ
unfolding attempt delete_row find_blob release_last release_one
delete_message id blob_id = do
  attempt
  modify_db λ db. record db { messages = delete_row id db.messages }
  attempt
  s ← get
  blob ← or_fail (find_blob blob_id s.db.blobs) no_rows
  if leb blob.ref_count 1 then release_last blob else release_one blob

-- ORDER BY key, rowid LIMIT 1
unfoldable pub first_min : (Row → ℕ) → List Row → Option Row
first_min key [] = none
first_min key (r ∷ rows) = elim (first_min key rows) [
  | none ↦ some r
  | some q ↦ if leb (key r) (key q) then some r else some q
]

abbrev pub unprotected : Bytes → Row → Bool
unprotected protected r = not (eq_bytes r.blob_id protected)

unfoldable pub oldest_expired : ℕ → Bytes → List Row → Option Row
unfolding first_min
oldest_expired before protected rows =
    first_min (λ r. r.expires_at)
      (keep_if (λ r. leb r.expires_at before && unprotected protected r) rows)

unfoldable pub oldest_arrival : Bytes → List Row → Option Row
unfolding first_min
oldest_arrival protected rows =
    first_min (λ r. r.received_at) (keep_if (unprotected protected) rows)

-- The row that a round removes, and whether it has expired.
pub record Choice : Type 0 where
  pub row : Row
  pub expired : Bool

unfoldable pub choose_expired : ℕ → Bytes → Bool → M (Option Row)
unfolding attempt oldest_expired
choose_expired before protected remain =
    if remain
    then (do attempt; s ← get; pure (oldest_expired before protected s.db.messages))
    else pure none

unfoldable pub choose_arrival : Bytes → M Choice
unfolding attempt oldest_arrival
choose_arrival protected = do
  attempt
  s ← get
  row ← or_fail (oldest_arrival protected s.db.messages) limit_exhausted
  pure (record { row = row; expired = false })

unfoldable pub or_arrival : Bytes → Option Row → M Choice
unfolding choose_arrival
or_arrival protected (some row) = pure (record { row = row; expired = true })
or_arrival protected none = choose_arrival protected

unfoldable pub choose : ℕ → Bytes → Bool → M Choice
unfolding choose_expired or_arrival
choose before protected remain = do
  expired ← choose_expired before protected remain
  or_arrival protected expired

abbrev pub count_removed : Bool → ℕ → CleanupStats → CleanupStats
count_removed true released stats = record stats {
  expired = stats.expired + 1;
  expired_bytes = stats.expired_bytes + released;
}
count_removed false released stats = record stats {
  evicted = stats.evicted + 1;
  evicted_bytes = stats.evicted_bytes + released;
}

-- The loop, while the projected usage exceeds the cap. A choice that has not expired was made
-- after the expired rows ran out.
module _ (max_bytes before : ℕ) (protected : Bytes) where
  unfoldable pub evict_loop : ℕ → ℤ → Bool → CleanupStats → M CleanupStats
  unfolding choose delete_message
  evict_loop zero projected remain stats = fail out_of_fuel
  evict_loop (suc fuel) projected remain stats = elim (ltb_ℤ (pos max_bytes) projected) [
    | false ↦ pure stats
    | true ↦ do
      choice ← choose before protected remain
      released ← delete_message choice.row.id choice.row.blob_id
      evict_loop fuel (projected -ℤ pos released) choice.expired
          (count_removed choice.expired released stats)
  ]

-- Each round removes a message, so there are at most as many rounds as messages.
unfoldable pub evict_tx : Config → ℕ → Bytes → ℕ → M CleanupStats
unfolding evict_loop
evict_tx cfg before protected added = do
  s ← get
  evict_loop cfg.max_storage_bytes before protected (suc (length s.db.messages))
      (s.stored_bytes +ℤ pos added) true no_stats
