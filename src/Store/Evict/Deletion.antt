-- ===== src/Store/Evict/Deletion.antt =====
-- What deleteMessageTx does to the tables: it removes one row, and with the last row of a blob it
-- moves the blob's bytes to the queue.
use tmpmail_fyi.Common.{
  leb, if◌then◌else◌, Bool-cases, Bytes, eq_bytes, eq_bytes_refl, eq_bytes_iff, ℕ, ◌+◌, ◌≤◌, ◌<◌,
  ◌≡◌, refl, sym, ap, ◌∙◌, inl, inr, false, not, some, arith,
}
use tmpmail_fyi.Store.State.{Row, Blob, PendingFile, Db, Store, Schedule, no_rows, constraint}
use tmpmail_fyi.Store.Tables.{
  find_blob, delete_blob, release_blob, find_row, delete_row, is_pending, insert_pending,
  blob_bytes, pending_bytes,
}
use tmpmail_fyi.Store.Tables.Rows.{refs, delete_row-UniqueRows, refs-delete_row}
use tmpmail_fyi.Store.Tables.Blobs.{
  recorded_refs, find_blob-id, recorded_refs_of_find, find_blob-delete_blob,
  recorded_refs-delete_blob, recorded_refs-release_blob, blob_bytes-delete_blob,
  blob_bytes-release_blob, delete_blob-UniqueBlobs, find_blob-release_path, find_blob-release_other,
  release_blob-UniqueBlobs, delete_blob-IsHeld, release_blob-IsHeld,
}
use tmpmail_fyi.Store.Tables.Queue.{pending_bytes-insert, insert_pending-Ordered, is_pending-insert}
use tmpmail_fyi.Store.Post.{Post, attempt-Post, guard-Post, if-Post, or_fail-Post, step-Post}
use tmpmail_fyi.Store.Valid.{WellFormed, OnlyDb, OnlyDbError}
use tmpmail_fyi.Store.Evict.{queue_file, release_last, release_one, delete_message}

-- One row is gone, the released bytes moved from the blobs to the queue, and the blobs that the row did
-- not hold are as before; no path is queued but that of the blob of the row, and no blob has a new path.
pub record Deleted (id : Bytes) (db : Db) (released : ℕ) (after : Db) : Type 0 where
  pub tables : WellFormed after
  pub rows : after.messages ≡ delete_row id db.messages
  pub bytes : blob_bytes db.blobs ≡ blob_bytes after.blobs + released
  pub queue : pending_bytes after.pending ≡ pending_bytes db.pending + released
  pub spared :
      (row : Row) (k : Bytes)
      → find_row id db.messages ≡ some row
      → eq_bytes row.blob_id k ≡ false
      → find_blob k after.blobs ≡ find_blob k db.blobs
  pub paths :
      (k : Bytes) (c : Blob)
      → find_blob k after.blobs ≡ some c
      → (b : Blob) × (find_blob k db.blobs ≡ some b) × (b.path ≡ c.path)
  pub queued :
      (row : Row)
      → find_row id db.messages ≡ some row
      → (b : Blob) × (find_blob row.blob_id db.blobs ≡ some b)
        × ((path : Bytes)
            → eq_bytes b.path path ≡ false
            → is_pending path db.pending ≡ false
            → is_pending path after.pending ≡ false)

abbrev without_row : Bytes → Db → Db
without_row id db = record db { messages = delete_row id db.messages }

abbrev requeued : Blob → Db → Db
requeued b db = record db {
  blobs = delete_blob b.id db.blobs;
  pending = insert_pending (record { path = b.path; size = b.size }) db.pending;
}

abbrev decremented : Blob → Db → Db
decremented b db = record db { blobs = release_blob b.id db.blobs }

module _ (id : Bytes) (row : Row) (b : Blob) (db : Db) (v : WellFormed db)
    (found : find_row id db.messages ≡ some row)
    (holds : find_blob row.blob_id db.blobs ≡ some b) where
  same_id : b.id ≡ row.blob_id
  same_id = find_blob-id row.blob_id b db.blobs holds

  found_own : find_blob b.id db.blobs ≡ some b
  found_own = ap (λ k. find_blob k db.blobs) same_id ∙ holds

  count_row :
      (k : Bytes)
      → refs k db.messages ≡ refs k (delete_row id db.messages) + (if eq_bytes b.id k then 1 else 0)
  count_row k = rw same_id (refs-delete_row k id row db.messages v.rows_unique found)

  recorded : recorded_refs b.id db.blobs ≡ b.ref_count
  recorded = recorded_refs_of_find b.id b db.blobs found_own

  other_blob :
      (r : Row) (k : Bytes)
      → find_row id db.messages ≡ some r
      → eq_bytes r.blob_id k ≡ false
      → eq_bytes b.id k ≡ false
  other_blob r k h other = let same : r ≡ row = cc in rw same_id (rw same at other)

  blob_of : (r : Row) → find_row id db.messages ≡ some r → find_blob r.blob_id db.blobs ≡ some b
  blob_of r h = let same : r ≡ row = cc in rw same holds

  still_found :
      (k : Bytes) (c : Blob)
      → find_blob k (delete_blob b.id db.blobs) ≡ some c
      → find_blob k db.blobs ≡ some c
  still_found k c h = elim (Bool-cases (eq_bytes b.id k)) [
    | inl e ↦ absurd (ground (arith, e, find_blob-delete_blob b.id k db.blobs))
    | inr e ↦ sym (find_blob-delete_blob b.id k db.blobs ∙ rw e refl) ∙ h
  ]

  requeued-Deleted :
      b.ref_count ≤ 1
      → is_pending b.path db.pending ≡ false
      → Deleted id db b.size (requeued b (without_row id db))
  requeued-Deleted last fresh = record {
    tables = record {
      rows_unique = delete_row-UniqueRows id db.messages v.rows_unique;
      blobs_unique = delete_blob-UniqueBlobs b.id db.blobs v.blobs_unique;
      queue_ordered = insert_pending-Ordered _ db.pending fresh v.queue_ordered;
      counted = λ k. ground (
        arith,
        count_row k,
        count_row b.id,
        v.counted k,
        v.counted b.id,
        recorded,
        recorded_refs-delete_blob b.id k db.blobs,
        eq_bytes_iff b.id k,
        eq_bytes_refl b.id,
      );
      held = delete_blob-IsHeld b.id db.blobs v.held;
    };
    rows = refl;
    bytes = omega (arith, blob_bytes-delete_blob b.id b db.blobs v.blobs_unique found_own);
    queue =
        omega (arith, pending_bytes-insert (record { path = b.path; size = b.size }) db.pending);
    spared = λ r k h other.
        let apart = other_blob r k h other in
        rw (find_blob-delete_blob b.id k db.blobs, apart) refl;
    paths = λ k c h. (c, still_found k c h, refl);
    queued = λ r h. (
      b,
      blob_of r h,
      λ path other free.
          is_pending-insert path (record { path = b.path; size = b.size }) db.pending
          ∙ rw (other, free) refl,
    );
  }

  decremented-Deleted : 1 < b.ref_count → Deleted id db 0 (decremented b (without_row id db))
  decremented-Deleted more = record {
    tables = record {
      rows_unique = delete_row-UniqueRows id db.messages v.rows_unique;
      blobs_unique = release_blob-UniqueBlobs b.id db.blobs v.blobs_unique;
      queue_ordered = v.queue_ordered;
      counted =
          λ k. ground (arith, count_row k, v.counted k, recorded_refs-release_blob b.id k db.blobs);
      held = release_blob-IsHeld b.id b db.blobs v.blobs_unique found_own more v.held;
    };
    rows = refl;
    bytes = omega (arith, blob_bytes-release_blob b.id db.blobs);
    queue = omega arith;
    spared = λ r k h other. find_blob-release_other b.id k db.blobs (other_blob r k h other);
    paths = λ k c h. find_blob-release_path b.id k c db.blobs h;
    queued = λ r h. (b, blob_of r h, λ path other free. free);
  }

abbrev with_pending : PendingFile → Store → Store
with_pending file s = record s { db = record s.db { pending = insert_pending file s.db.pending } }

queue_file-Post :
    (file : PendingFile) (s₀ s : Store) (w : Schedule)
    → OnlyDb s₀ s
    → Post
        (λ _ t. (is_pending file.path s.db.pending ≡ false) × (t ≡ with_pending file s))
        (OnlyDbError s₀)
        (queue_file file s w)
unfolding queue_file
queue_file-Post file s₀ s w only =
    attempt-Post _ (OnlyDbError s₀) _ s w (tt, only)
      λ v.
        guard-Post _ (OnlyDbError s₀) (not (is_pending file.path s.db.pending)) constraint _ s v
          (λ _. (tt, only)) λ fresh. (ground arith, refl)

-- Whatever calls fail, nothing but the database changes; on success one row is deleted.
module _ (id : Bytes) (row : Row) (s : Store) (w : Schedule) (v : WellFormed s.db)
    (found : find_row id s.db.messages ≡ some row) where
  abbrev one_gone : Store
  one_gone = record s { db = without_row id s.db }

  abbrev Gone : ℕ → Store → Type 0
  Gone released t = Deleted id s.db released t.db × OnlyDb s t

  release_last-Post :
      (b : Blob) (w' : Schedule)
      → find_blob row.blob_id s.db.blobs ≡ some b
      → b.ref_count ≤ 1
      → Post Gone (OnlyDbError s) (release_last b one_gone w')
  unfolding release_last
  release_last-Post b w' holds last =
      let file : PendingFile = record { path = b.path; size = b.size } in
      step-Post (with_pending file one_gone) (λ _. is_pending b.path s.db.pending ≡ false)
        (OnlyDbError s) Gone (queue_file file) _ one_gone w'
        (queue_file-Post file s one_gone w' refl)
        λ _ w₂ fresh.
          attempt-Post Gone (OnlyDbError s) _ (with_pending file one_gone) w₂ (tt, refl)
            λ w₃. (requeued-Deleted id row b s.db v found holds last fresh, refl)

  release_one-Post :
      (b : Blob) (w' : Schedule)
      → find_blob row.blob_id s.db.blobs ≡ some b
      → 1 < b.ref_count
      → Post Gone (OnlyDbError s) (release_one b one_gone w')
  unfolding release_one
  release_one-Post b w' holds more =
      attempt-Post Gone (OnlyDbError s) _ one_gone w' (tt, refl)
        λ _. (decremented-Deleted id row b s.db v found holds more, refl)

  pub delete_message-Post : Post Gone (OnlyDbError s) (delete_message id row.blob_id s w)
  unfolding delete_message
  delete_message-Post =
      attempt-Post Gone (OnlyDbError s) _ s w (tt, refl)
        λ w₁.
          attempt-Post Gone (OnlyDbError s) _ one_gone w₁ (tt, refl)
            λ w₂.
              or_fail-Post Gone (OnlyDbError s) (find_blob row.blob_id s.db.blobs) no_rows _
                one_gone w₂ (λ _. (tt, refl))
                λ b holds.
                  if-Post Gone (OnlyDbError s) (leb b.ref_count 1) (release_last b) (release_one b)
                    one_gone w₂ (λ last. release_last-Post b w₂ holds (ground arith))
                    (λ more. release_one-Post b w₂ holds (ground arith))
