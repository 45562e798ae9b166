-- ===== src/Store/Pending/Guarded.antt =====
-- A file that is not queued for deletion outlives the work on the queue.
use tmpmail_fyi.Common.{
  ltb, if◌then◌else◌, Bool-cases, length, Bytes, eq_bytes, ◌+ℤ◌, pos, ℕ, ◌+◌, ◌≡◌, refl, sym, subst,
  ◌∙◌, inl, inr, Bool, true, false, Option, none, some, List, [],
}
use tmpmail_fyi.Store.State.{PendingFile, Store, Error, Schedule, Try, good, bad}
use tmpmail_fyi.Store.Tables.{is_pending, blob_bytes, pending_bytes, find_file}
use tmpmail_fyi.Store.Tables.Queue.{Ordered, is_pending-insert}
use tmpmail_fyi.Store.Post.{
  Post, bind-Post, weaken-Post, attempt-Post, succeeds-Post, if-Post, try-Post,
}
use tmpmail_fyi.Store.Pending.{
  cleanup_batch_size, remove_file, is_empty, drain_pending_batch, drain_pending, count_error,
  retry_pending, load_storage_usage, insert_pending_new, discard_unrecorded, after_load,
  discard_recorded, discard_file,
}
use tmpmail_fyi.Store.Pending.Drain.{find_file-delete_file, Never, unlinked_file, remove_file-Post}
use tmpmail_fyi.Store.Pending.Books.{DrainsTo, drain_pending_batch-Drains}
use tmpmail_fyi.Store.Pending.Keeps.{insert_pending_new-Ordered}

module _ (path : Bytes) (content : Option Bytes) where
  -- The path is not queued, and its file has the content.
  pub record Guarded (t : Store) : Type 0 where
    pub ordered : Ordered t.db.pending
    pub free : is_pending path t.db.pending ≡ false
    pub file : find_file path t.files ≡ content

  same_files-Guarded :
      (s t : Store) → t.db.pending ≡ s.db.pending → t.files ≡ s.files → Guarded s → Guarded t
  same_files-Guarded s t queue files g = record {
    ordered = rw queue g.ordered;
    free = rw queue g.free;
    file = rw files g.file;
  }

  if-Guarded : (s t : Store) (b : Bool) → Guarded s → Guarded t → Guarded (if b then s else t)
  if-Guarded s t true g h = g
  if-Guarded s t false g h = h

  drain_pending-Guarded :
      (s : Store) (w : Schedule) → Guarded s → Post (λ _. Guarded) Never (drain_pending s w)
  unfolding drain_pending
  drain_pending-Guarded s w g =
      bind-Post (DrainsTo s) Never Never (λ _. Guarded) (drain_pending_batch s.pending_cursor) _ s w
        (drain_pending_batch-Drains s.pending_cursor s w g.ordered) (λ e t h. h)
        λ d t w₁ (drained, _).
          let kept : Guarded t = record {
            ordered = drained.ordered;
            free = drained.shorter path g.free;
            file = drained.untouched path g.free ∙ g.file;
          } in
          let with_cursor : (u : Store) (cursor : Bytes)
              → Guarded u
              → Guarded (record u { pending_cursor = cursor }) =
            λ u cursor h. same_files-Guarded u (record u { pending_cursor = cursor }) refl refl h in
          let moved : Store = if is_empty d.next then t else record t { pending_cursor = d.next } in
          let next : Guarded moved =
            if-Guarded t (record t { pending_cursor = d.next }) (is_empty d.next) kept
              (with_cursor t d.next kept) in
          if-Guarded (record moved { pending_cursor = [] }) moved (ltb d.count cleanup_batch_size)
            (with_cursor moved [] next) next

  count_error-Guarded : (t : Store) (e : Option Error) → Guarded t → Guarded (count_error e t)
  count_error-Guarded t none g = g
  count_error-Guarded t (some e) g = same_files-Guarded t (count_error (some e) t) refl refl g

  pub retry_pending-Guarded :
      (s : Store) (w : Schedule) → Guarded s → Post (λ _. Guarded) Never (retry_pending s w)
  unfolding retry_pending
  retry_pending-Guarded s w g =
      bind-Post (λ _. Guarded) Never Never (λ _. Guarded) drain_pending _ s w
        (drain_pending-Guarded s w g) (λ e t h. h) λ e t w₁ h. count_error-Guarded t e h

  load_storage_usage-Guarded :
      (s : Store) (w : Schedule)
      → Guarded s
      → Post (λ _. Guarded) (λ _. Guarded) (load_storage_usage s w)
  unfolding load_storage_usage
  load_storage_usage-Guarded s w g =
      attempt-Post (λ _. Guarded) (λ _. Guarded) _ s w g
        λ w₁.
          let t : Store = record s {
            stored_bytes = pos (blob_bytes s.db.blobs + pending_bytes s.db.pending);
          } in
          let h = same_files-Guarded s t refl refl g in
          attempt-Post (λ _. Guarded) (λ _. Guarded) _ t w₁ h
            λ w₂.
              same_files-Guarded t (record t { stored_messages = pos (length t.db.messages) }) refl
                refl h

  after_load-Guarded :
      (o : Try (Unit {0})) (s : Store) (w : Schedule)
      → Guarded s
      → Post (λ _. Guarded) Never (after_load o s w)
  unfolding after_load
  after_load-Guarded (good a) s w g =
      bind-Post (λ _. Guarded) Never Never (λ _. Guarded) drain_pending _ s w
        (drain_pending-Guarded s w g) (λ e t h. h) λ e t w₁ h. h
  after_load-Guarded (bad e) s w g =
      same_files-Guarded s (record s { storage_fault = true }) refl refl g

  module _ (other : Bytes) (size : ℕ) (apart : eq_bytes other path ≡ false) where
    insert_new-free :
        (pending : List PendingFile)
        → is_pending path pending ≡ false
        → is_pending path (insert_pending_new (record { path = other; size = size }) pending)
          ≡ false
    unfolding insert_pending_new
    insert_new-free pending h = elim (Bool-cases (is_pending other pending)) [
      | inl e ↦ rw e h
      | inr e ↦
          let inserted = is_pending-insert path (record { path = other; size = size }) pending in
          rw e (inserted ∙ rw (apart, h) refl)
    ]

    unlinked_file-Guarded :
        (gone : Bool) (s : Store) → Guarded s → Guarded (unlinked_file gone other s)
    unlinked_file-Guarded true s g = record {
      ordered = g.ordered;
      free = g.free;
      file = find_file-delete_file other path s.files ∙ rw apart g.file;
    }
    unlinked_file-Guarded false s g = g

    pub remove_other-Guarded :
        (s : Store) (w : Schedule) → Guarded s → Post (λ _. Guarded) Never (remove_file other s w)
    remove_other-Guarded s w g =
        weaken-Post (λ gone t. t ≡ unlinked_file gone other s) (λ _. Guarded) Never Never
          (remove_file other) s w (remove_file-Post other s w)
          (λ gone t same. subst Guarded (sym same) (unlinked_file-Guarded gone s g)) (λ e t h. h)

    -- The deletion of another file leaves this one.
    pub discard_other-Guarded :
        (s : Store) (w : Schedule)
        → Guarded s
        → Post (λ _. Guarded) Never (discard_file other size s w)
    unfolding discard_file discard_recorded discard_unrecorded
    discard_other-Guarded s w g =
        succeeds-Post (λ _. Guarded) Never _ s w
          λ recorded w₁.
            if-Post (λ _. Guarded) Never recorded (discard_recorded other size)
              (discard_unrecorded other size) s w₁
              (λ _.
                let new : PendingFile = record { path = other; size = size } in
                let t : Store = record s {
                  db = record s.db { pending = insert_pending_new new s.db.pending };
                } in
                let h : Guarded t = record {
                  ordered = insert_pending_new-Ordered new s.db.pending g.ordered;
                  free = insert_new-free s.db.pending g.free;
                  file = g.file;
                } in
                try-Post (λ _. Guarded) (λ _. Guarded) Never (λ _. Guarded) after_load
                  load_storage_usage t w₁ (load_storage_usage-Guarded t w₁ h)
                  (λ a u w₂ k. after_load-Guarded (good a) u w₂ k)
                  (λ e u w₂ k. after_load-Guarded (bad e) u w₂ k))
              (λ _.
                bind-Post (λ _. Guarded) Never Never (λ _. Guarded) (remove_file other) _ s w₁
                  (remove_other-Guarded s w₁ g) (λ e t h. h)
                  λ gone t w₂ h.
                    let u : Store = if gone then t else record t {
                      stored_bytes = t.stored_bytes +ℤ pos size;
                      storage_fault = true;
                    } in
                    succeeds-Post (λ _. Guarded) Never _ u w₂
                      λ b w₃. if-Guarded t _ gone h (
                        same_files-Guarded t
                          (record t {
                            stored_bytes = t.stored_bytes +ℤ pos size;
                            storage_fault = true;
                          })
                          refl refl h))
