-- ===== src/Store/Pending/Books.antt =====
-- A drain of the queue keeps the store valid.
use tmpmail_fyi.Common.{
  take, Bytes, ℤ, ◌-ℤ◌, pos, negsuc, ℕ, ◌+◌, ◌≡◌, refl, sym, ap, subst, ◌∙◌, false, List, [], ◌∷◌,
  arith,
}
use tmpmail_fyi.Store.State.{
  PendingFile, Db, Store, Error, IsReal, RealOption, Schedule, Outcome, in_tx, done, failed,
}
use tmpmail_fyi.Store.Tables.{is_pending, delete_pending, pending_bytes, pending_after}
use tmpmail_fyi.Store.Tables.Queue.{
  Ordered, delete_all_pending, delete_all_pending-Ordered, pending_bytes-delete_files,
  is_pending-delete_all,
}
use tmpmail_fyi.Store.Tables.Part.{Within, Within-nil, Within-keep, batch-Within, Ordered-IsQueued}
use tmpmail_fyi.Store.Post.{Post, bind-Post, weaken-Post, attempt-Post, step-Post, in_tx-Post}
use tmpmail_fyi.Store.Valid.{OnlyDb, OnlyDb-trans, OnlyDbError}
use tmpmail_fyi.Store.Pending.{
  cleanup_batch_size, Drained, unlink_all, forget_all, forget, drain_batch, caught,
  drain_pending_batch,
}
use tmpmail_fyi.Store.Pending.Drain.{Untouched, OnlyFiles, Never, Unlinks, unlink_all-Unlinks}

abbrev forgotten : List PendingFile → Store → Store
forgotten removed s = record s {
  db = record s.db { pending = delete_all_pending removed s.db.pending };
}

abbrev Forgets : List PendingFile → Store → Unit {0} → Store → Type 0
Forgets removed s _ t = (t ≡ forgotten removed s) × OnlyDb s t

forget_all-Forgets :
    (removed : List PendingFile) (s : Store) (w : Schedule)
    → Post (Forgets removed s) (OnlyDbError s) (forget_all removed s w)
unfolding forget_all delete_all_pending
forget_all-Forgets [] s w = (refl, refl)
forget_all-Forgets (p ∷ removed) s w =
    attempt-Post (Forgets (p ∷ removed) s) (OnlyDbError s) _ s w (tt, refl)
      λ v.
        weaken-Post (Forgets removed shorter) (Forgets (p ∷ removed) s) (OnlyDbError shorter)
          (OnlyDbError s) (forget_all removed) shorter v (forget_all-Forgets removed shorter v)
          (λ _ t (same, only). (same, OnlyDb-trans s shorter t refl only))
          (λ e t (real, only). (real, OnlyDb-trans s shorter t refl only))
  where
    shorter : Store
    shorter = record s { db = record s.db { pending = delete_pending p.path s.db.pending } }

abbrev Unchanged : Store → Error → Store → Type 0
Unchanged s e t = IsReal e × (t ≡ s)

forget-Post :
    (removed : List PendingFile) (s : Store) (w : Schedule)
    → Post (λ _ t. t ≡ forgotten removed s) (Unchanged s) (forget removed s w)
unfolding forget delete_all_pending
forget-Post [] s w = refl
forget-Post (p ∷ removed) s w =
    attempt-Post _ (Unchanged s) _ s w (tt, refl)
      λ v.
        weaken-Post (λ a t. (t ≡ forgotten (p ∷ removed) s) × OnlyDb s t) _
          (λ e t. IsReal e × (t ≡ s)) (Unchanged s) (in_tx (forget_all (p ∷ removed))) s v
          (in_tx-Post (λ a t. t ≡ forgotten (p ∷ removed) s) (forget_all (p ∷ removed)) s v
            λ v₁. forget_all-Forgets (p ∷ removed) s v₁)
          (λ a t h. h.0) (λ e t h. h)

-- What a drain changes: bytes leave the queue and the books together, and only queued files go.
pub record Drains (s t : Store) : Type 0 where
  pub freed : ℕ
  pub messages : t.db.messages ≡ s.db.messages
  pub blobs : t.db.blobs ≡ s.db.blobs
  pub ordered : Ordered t.db.pending
  pub bytes : pending_bytes s.db.pending ≡ freed + pending_bytes t.db.pending
  pub stored_bytes : t.stored_bytes ≡ s.stored_bytes -ℤ pos freed
  pub stored_messages : t.stored_messages ≡ s.stored_messages
  pub storage_fault : t.storage_fault ≡ s.storage_fault
  pub untouched : Untouched s.db.pending s t
  pub shorter :
      (path : Bytes) → is_pending path s.db.pending ≡ false → is_pending path t.db.pending ≡ false

sub_zero : (z : ℤ) → z ≡ z -ℤ pos 0
sub_zero (pos n) = ground arith
sub_zero (negsuc n) = ground arith

-- Unlinked files that the queue still lists.
unlinked-Drains :
    (s t : Store) (files : List PendingFile)
    → Ordered s.db.pending
    → Within s.db.pending files
    → OnlyFiles s t
    → Untouched files s t
    → Drains s t
unlinked-Drains s t files o i only u = record {
  freed = 0;
  messages = ap (λ (x : Store). x.db.messages) only;
  blobs = ap (λ (x : Store). x.db.blobs) only;
  ordered = subst (λ (x : Store). Ordered x.db.pending) (sym only) o;
  bytes = sym (ap (λ (x : Store). pending_bytes x.db.pending) only) ∙ omega arith;
  stored_bytes = ap (λ (x : Store). x.stored_bytes) only ∙ sub_zero s.stored_bytes;
  stored_messages = ap (λ (x : Store). x.stored_messages) only;
  storage_fault = ap (λ (x : Store). x.storage_fault) only;
  untouched = λ path h. u path (i.absent path h);
  shorter = λ path h. ap (λ (x : Store). is_pending path x.db.pending) only ∙ h;
}

abbrev booked : List PendingFile → Store → Store
booked removed t = record t { stored_bytes = t.stored_bytes -ℤ pos (pending_bytes removed) }

forgotten-Drains :
    (s t : Store) (files removed : List PendingFile)
    → Ordered s.db.pending
    → Within s.db.pending files
    → Within files removed
    → OnlyFiles s t
    → Untouched files s t
    → Drains s (booked removed (forgotten removed t))
forgotten-Drains s t files removed o i j only u =
    let db : t.db ≡ s.db = ap (λ (x : Store). x.db) only in
    record {
      freed = pending_bytes removed;
      messages = ap (λ (x : Db). x.messages) db;
      blobs = ap (λ (x : Db). x.blobs) db;
      ordered =
          delete_all_pending-Ordered removed t.db.pending
            (subst (λ (x : Db). Ordered x.pending) (sym db) o);
      bytes =
          subst
            (λ (x : Db).
              pending_bytes s.db.pending
              ≡ pending_bytes removed + pending_bytes (delete_all_pending removed x.pending))
            (sym db)
            (pending_bytes-delete_files removed s.db.pending o (j.ordered (i.ordered o))
              (j.queued s.db.pending (i.queued s.db.pending (Ordered-IsQueued s.db.pending o))));
      stored_bytes = ap (λ (x : Store). x.stored_bytes -ℤ pos (pending_bytes removed)) only;
      stored_messages = ap (λ (x : Store). x.stored_messages) only;
      storage_fault = ap (λ (x : Store). x.storage_fault) only;
      untouched = λ path h. u path (i.absent path h);
      shorter = λ path h.
          is_pending-delete_all path removed t.db.pending
            (ap (λ (x : Db). is_pending path x.pending) db ∙ h);
    }

abbrev pub DrainsTo : Store → Drained → Store → Type 0
DrainsTo s d t = Drains s t × RealOption d.error

abbrev DrainsError : Store → Error → Store → Type 0
DrainsError s e t = Drains s t × IsReal e

same-Drains : (s : Store) → Ordered s.db.pending → Drains s s
same-Drains s o = unlinked-Drains s s s.db.pending o (all_of s.db.pending) refl (λ path h. refl)
  where
    all_of : (pending : List PendingFile) → Within pending pending
    all_of [] = Within-nil
    all_of (p ∷ pending) = Within-keep p (all_of pending)

-- A batch, whatever calls fail.
drain_batch-Drains :
    (cursor : Bytes) (s : Store) (w : Schedule)
    → Ordered s.db.pending
    → Post (DrainsTo s) (DrainsError s) (drain_batch cursor s w)
unfolding drain_batch
drain_batch-Drains cursor s w o =
    attempt-Post (DrainsTo s) (DrainsError s) _ s w (same-Drains s o, tt)
      λ w₁.
        attempt-Post (DrainsTo s) (DrainsError s) _ s w₁ (same-Drains s o, tt)
          λ w₂.
            bind-Post (Unlinks files s) (DrainsError s) Never (DrainsTo s) (unlink_all files) _ s w₂
              (unlink_all-Unlinks files s w₂) (λ e t h. absurd h)
              λ u t w₃ (j, only, untouched, real).
                step-Post (forgotten u.removed t) (λ _. Unit) (DrainsError s) (DrainsTo s)
                  (forget u.removed) _ t w₃
                  (weaken-Post (λ _ x. x ≡ forgotten u.removed t)
                    (λ _ x. Unit × (x ≡ forgotten u.removed t)) (Unchanged t) (DrainsError s)
                    (forget u.removed) t w₃ (forget-Post u.removed t w₃) (λ a x h. (tt, h))
                    λ e x h. (
                      subst (Drains s) (sym h.1) (unlinked-Drains s t files o i only untouched),
                      h.0,
                    ))
                  λ _ w₄ _. (forgotten-Drains s t files u.removed o i j only untouched, real)
  where
    files : List PendingFile
    files = take cleanup_batch_size (pending_after cursor s.db.pending)

    i : Within s.db.pending files
    i = batch-Within cleanup_batch_size cursor s.db.pending

drain_caught :
    (s : Store) (o : Outcome Drained)
    → Post (DrainsTo s) (DrainsError s) o
    → Post (DrainsTo s) Never (caught o)
unfolding caught
drain_caught s (done d t v) h = h
drain_caught s (failed e t v) h = h

-- drainPendingBatchLocked does not fail: it returns its error.
pub drain_pending_batch-Drains :
    (cursor : Bytes) (s : Store) (w : Schedule)
    → Ordered s.db.pending
    → Post (DrainsTo s) Never (drain_pending_batch cursor s w)
unfolding drain_pending_batch
drain_pending_batch-Drains cursor s w o =
    drain_caught s (drain_batch cursor s w) (drain_batch-Drains cursor s w o)
