-- ===== src/Store/Pending.antt =====
-- The queue of files awaiting deletion: drainPendingLocked, drainPendingBatchLocked,
-- discardFileLocked and loadStorageUsage of internal/app/store.go.
pub mod Drain
pub mod Books
pub mod Keeps
pub mod Guarded
use tmpmail_fyi.Common.{
  ltb, if◌then◌else◌, length, take, Bytes, ◌+ℤ◌, ◌-ℤ◌, pos, ℕ, ◌+◌, Bool, true, false, Option, none,
  some, List, [], ◌∷◌,
}
use tmpmail_fyi.Store.State.{
  PendingFile, Store, Error, Outcome, M, ◌>>=◌, ◌>>◌, pure, get, modify, modify_db, succeeds,
  attempt, Try, try, in_tx, external, done, failed, good, bad,
}
use tmpmail_fyi.Store.Tables.{
  is_pending, insert_pending, delete_pending, blob_bytes, pending_bytes, pending_after, delete_file,
}

abbrev pub cleanup_batch_size : ℕ
cleanup_batch_size = 256

-- s.removeFile: true if the file is gone, also when it was not there.
unfoldable pub remove_file : Bytes → M Bool
unfolding succeeds delete_file
remove_file path = do
  gone ← succeeds
  modify λ s. if gone then record s { files = delete_file path s.files } else s
  pure gone

-- What a batch returns: the last path that it read, the number of paths, and the first error.
pub record Drained : Type 0 where
  pub next : Bytes
  pub count : ℕ
  pub error : Option Error

-- The loop over the files of a batch: those that are gone, and whether an unlink failed.
pub record Unlinked : Type 0 where
  pub removed : List PendingFile
  pub error : Option Error

unfoldable pub unlink_all : List PendingFile → M Unlinked
unfolding remove_file
unlink_all [] = pure (record { removed = []; error = none })
unlink_all (p ∷ files) = do
  gone ← remove_file p.path
  rest ← unlink_all files
  pure (
      if gone
      then record rest { removed = p ∷ rest.removed }
      else record rest { error = some external })

-- The statements of the transaction that forgets the removed files.
unfoldable pub forget_all : List PendingFile → M (Unit {0})
unfolding attempt delete_pending
forget_all [] = pure tt
forget_all (p ∷ files) = do
  attempt
  modify_db λ db. record db { pending = delete_pending p.path db.pending }
  forget_all files

unfoldable pub last_path : Bytes → List PendingFile → Bytes
last_path path [] = path
last_path path (p ∷ files) = last_path p.path files

abbrev pub is_empty {ℓ} : {A : Type ℓ} → List A → Bool
is_empty [] = true
is_empty (x ∷ xs) = false

-- if len(removed) > 0: the directory is synced before the queue forgets the files.
unfoldable pub forget : List PendingFile → M (Unit {0})
unfolding attempt in_tx forget_all
forget removed = if is_empty removed then pure tt else attempt >> in_tx (forget_all removed)

unfoldable pub drain_batch : Bytes → M Drained
unfolding attempt pending_after unlink_all forget pending_bytes last_path
drain_batch cursor = do
  attempt
  s ← get
  let files = take cleanup_batch_size (pending_after cursor s.db.pending)
  attempt
  unlinked ← unlink_all files
  forget unlinked.removed
  modify λ s. record s { stored_bytes = s.stored_bytes -ℤ pos (pending_bytes unlinked.removed) }
  pure (record { next = last_path [] files; count = length files; error = unlinked.error })

-- drainPendingBatchLocked as its callers see it: an error of SQLite or of the directory sync comes
-- with no cursor.
unfoldable pub caught : Outcome Drained → Outcome Drained
caught (done drained t v) = done drained t v
caught (failed e t v) = done (record { next = []; count = 0; error = some e }) t v

unfoldable pub drain_pending_batch : Bytes → M Drained
unfolding drain_batch caught
drain_pending_batch cursor s w = caught (drain_batch cursor s w)

unfoldable pub drain_pending : M (Option Error)
unfolding drain_pending_batch
drain_pending = do
  s ← get
  drained ← drain_pending_batch s.pending_cursor
  modify λ s. if is_empty drained.next then s else record s { pending_cursor = drained.next }
  modify λ s. if ltb drained.count cleanup_batch_size then record s { pending_cursor = [] } else s
  pure drained.error

-- A drain whose error is counted and logged.
abbrev pub count_error : Option Error → Store → Store
count_error none s = s
count_error (some e) s = record s { cleanup_error_count = s.cleanup_error_count + 1 }

unfoldable pub retry_pending : M (Unit {0})
unfolding drain_pending
retry_pending = do error ← drain_pending; modify (count_error error)

unfoldable pub load_storage_usage : M (Unit {0})
unfolding attempt blob_bytes pending_bytes
load_storage_usage = do
  attempt
  modify λ s. record s { stored_bytes = pos (blob_bytes s.db.blobs + pending_bytes s.db.pending) }
  attempt
  modify λ s. record s { stored_messages = pos (length s.db.messages) }

-- INSERT OR IGNORE INTO pending_deletions.
unfoldable pub insert_pending_new : PendingFile → List PendingFile → List PendingFile
unfolding is_pending insert_pending
insert_pending_new new pending =
    if is_pending new.path pending then pending else insert_pending new pending

-- The branch of discardFileLocked where the record could not be written.
unfoldable pub discard_unrecorded : Bytes → ℕ → M (Unit {0})
unfolding remove_file succeeds
discard_unrecorded path size = do
  gone ← remove_file path
  modify λ s.
      if gone
      then s
      else record s { stored_bytes = s.stored_bytes +ℤ pos size; storage_fault = true }
  succeeds
  pure tt

unfoldable pub after_load : Try (Unit {0}) → M (Unit {0})
unfolding drain_pending
after_load (good _) = drain_pending >> pure tt
after_load (bad e) = modify λ s. record s { storage_fault = true }

-- The branch where it was.
unfoldable pub discard_recorded : Bytes → ℕ → M (Unit {0})
unfolding load_storage_usage after_load try insert_pending_new
discard_recorded path size = do
  modify_db λ db. record db {
    pending = insert_pending_new (record { path = path; size = size }) db.pending;
  }
  loaded ← try load_storage_usage
  after_load loaded

unfoldable pub discard_file : Bytes → ℕ → M (Unit {0})
unfolding succeeds discard_unrecorded discard_recorded
discard_file path size = do
  recorded ← succeeds
  if recorded then discard_recorded path size else discard_unrecorded path size
