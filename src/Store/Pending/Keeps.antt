-- ===== src/Store/Pending/Keeps.antt =====
-- Every operation on the queue of files keeps the store valid and leaves the mail alone.
use tmpmail_fyi.Common.{
  ltb, if◌then◌else◌, Bool-cases, length, Bytes, ◌+ℤ◌, ◌-ℤ◌, pos, ℕ, ◌+◌, ◌≡◌, refl, sym, ap, subst,
  ◌∙◌, inl, inr, Bool, true, false, Option, none, some, List, [], arith,
}
use tmpmail_fyi.Store.State.{PendingFile, Store, Error, RealOption, Schedule, ◌>>=◌, try}
use tmpmail_fyi.Store.Tables.{is_pending, blob_bytes, pending_bytes}
use tmpmail_fyi.Store.Tables.Queue.{Ordered, insert_pending-Ordered}
use tmpmail_fyi.Store.Post.{Post, bind-Post, attempt-Post, succeeds-Post, if-Post, try-Post}
use tmpmail_fyi.Store.Valid.{WellFormed, charged, IsValid}
use tmpmail_fyi.Store.Pending.{
  cleanup_batch_size, remove_file, is_empty, drain_pending_batch, drain_pending, count_error,
  retry_pending, load_storage_usage, insert_pending_new, discard_unrecorded, after_load,
  discard_recorded, discard_file,
}
use tmpmail_fyi.Store.Pending.Drain.{OnlyFiles, Never, unlinked_file, remove_file-Post}
use tmpmail_fyi.Store.Pending.Books.{Drains, DrainsTo, drain_pending_batch-Drains}

-- The rows and blobs are as before, and so is a fault once raised.
pub record SameMail (s t : Store) : Type 0 where
  pub messages : t.db.messages ≡ s.db.messages
  pub blobs : t.db.blobs ≡ s.db.blobs
  pub stored_messages : t.stored_messages ≡ s.stored_messages

pub SameMail-refl : (s : Store) → SameMail s s
SameMail-refl s = record { messages = refl; blobs = refl; stored_messages = refl }

pub SameMail-trans : (s t u : Store) → SameMail s t → SameMail t u → SameMail s u
SameMail-trans s t u a b = record {
  messages = b.messages ∙ a.messages;
  blobs = b.blobs ∙ a.blobs;
  stored_messages = b.stored_messages ∙ a.stored_messages;
}

-- Valid, with the mail of `s`.
abbrev pub Sound : Store → Store → Type 0
Sound s t = IsValid t × SameMail s t

pub Sound-trans : (s t u : Store) → Sound s t → Sound t u → Sound s u
Sound-trans s t u p q = (q.0, SameMail-trans s t u p.1 q.1)

-- … and with its fault, if any.
abbrev pub Steady : Store → Store → Type 0
Steady s t = IsValid t × SameMail s t × (t.storage_fault ≡ s.storage_fault)

pub Steady-trans : (s t u : Store) → Steady s t → Steady t u → Steady s u
Steady-trans s t u p q = (q.0, SameMail-trans s t u p.1 q.1, q.2 ∙ p.2)

sub_pos : (total freed rest : ℕ) → total ≡ freed + rest → pos total -ℤ pos freed ≡ pos rest
sub_pos total freed rest h = ground arith

-- Bytes that leave the queue and the books together leave the books right.
Drains-Steady : (s t : Store) → IsValid s → Drains s t → Steady s t
unfolding charged
Drains-Steady s t v d = (
  record {
    tables = record {
      rows_unique = rw d.messages v.tables.rows_unique;
      blobs_unique = rw d.blobs v.tables.blobs_unique;
      queue_ordered = d.ordered;
      counted = λ k. rw (d.messages, d.blobs) (v.tables.counted k);
      held = rw d.blobs v.tables.held;
    };
    messages_booked =
        d.stored_messages ∙ v.messages_booked ∙ ap (λ m. pos (length m)) (sym d.messages);
    bytes_booked = λ calm.
        d.stored_bytes
        ∙ ap (λ z. z -ℤ pos d.freed) (v.bytes_booked (sym d.storage_fault ∙ calm))
        ∙ sub_pos (charged s.db) d.freed (charged t.db)
            (omega (arith, d.bytes, ap blob_bytes d.blobs));
  },
  record { messages = d.messages; blobs = d.blobs; stored_messages = d.stored_messages },
  d.storage_fault,
)

-- A store that differs in what the invariant does not mention.
pub with_cursor-Steady :
    (s t : Store) (cursor : Bytes) → Steady s t → Steady s (record t { pending_cursor = cursor })
with_cursor-Steady s t cursor (v, m, f) = (
  record { tables = v.tables; messages_booked = v.messages_booked; bytes_booked = v.bytes_booked },
  record { messages = m.messages; blobs = m.blobs; stored_messages = m.stored_messages },
  f,
)

pub if-Steady : (s t u : Store) (b : Bool) → Steady s t → Steady s u → Steady s (if b then t else u)
if-Steady s t u true p q = p
if-Steady s t u false p q = q

pub drain_pending-Steady :
    (s : Store) (w : Schedule)
    → IsValid s
    → Post (λ e t. Steady s t × RealOption e) Never (drain_pending s w)
unfolding drain_pending
drain_pending-Steady s w v =
    bind-Post (DrainsTo s) Never Never (λ e t. Steady s t × RealOption e)
      (drain_pending_batch s.pending_cursor) _ s w
      (drain_pending_batch-Drains s.pending_cursor s w v.tables.queue_ordered) (λ e t h. h)
      λ d t w₁ h.
        let drained : Steady s t = Drains-Steady s t v h.0 in
        let moved : Store = if is_empty d.next then t else record t { pending_cursor = d.next } in
        let sound : Steady s moved =
          if-Steady s t (record t { pending_cursor = d.next }) (is_empty d.next) drained
            (with_cursor-Steady s t d.next drained) in
        (
          if-Steady s (record moved { pending_cursor = [] }) moved (ltb d.count cleanup_batch_size)
              (with_cursor-Steady s moved [] sound) sound,
          h.1,
        )

pub count_error-Steady : (s t : Store) (e : Option Error) → Steady s t → Steady s (count_error e t)
count_error-Steady s t none h = h
count_error-Steady s t (some e) (v, m, f) = (
  record { tables = v.tables; messages_booked = v.messages_booked; bytes_booked = v.bytes_booked },
  record { messages = m.messages; blobs = m.blobs; stored_messages = m.stored_messages },
  f,
)

pub retry_pending-Steady :
    (s : Store) (w : Schedule) → IsValid s → Post (λ _. Steady s) Never (retry_pending s w)
unfolding retry_pending
retry_pending-Steady s w v =
    bind-Post (λ e t. Steady s t × RealOption e) Never Never (λ _. Steady s) drain_pending _ s w
      (drain_pending-Steady s w v) (λ e t h. h) λ e t w₁ h. count_error-Steady s t e h.0

-- After the pending table was written, the books are read afresh; failing that, a fault is raised.
module _ (s : Store) (pending : List PendingFile) (v : IsValid s) (o : Ordered pending) where
  abbrev queued_more : Store
  queued_more = record s { db = record s.db { pending = pending } }

  tables_of : WellFormed (record s.db { pending = pending })
  tables_of = record {
    rows_unique = v.tables.rows_unique;
    blobs_unique = v.tables.blobs_unique;
    queue_ordered = o;
    counted = v.tables.counted;
    held = v.tables.held;
  }

  -- The books were not read, or only those of bytes.
  abbrev Loading : Store → Type 0
  Loading t = SameMail s t × WellFormed t.db × (t.stored_messages ≡ pos (length t.db.messages))

  loaded-Post :
      (w : Schedule) → Post (λ _. Sound s) (λ _. Loading) (load_storage_usage queued_more w)
  unfolding load_storage_usage charged
  loaded-Post w =
      attempt-Post (λ _. Sound s) (λ _. Loading) _ queued_more w
        (same, tables_of, v.messages_booked)
        λ w₁.
          attempt-Post (λ _. Sound s) (λ _. Loading) _
            (record queued_more {
              stored_bytes = pos (blob_bytes s.db.blobs + pending_bytes pending);
            })
            w₁
            (
              record { messages = refl; blobs = refl; stored_messages = refl },
              tables_of,
              v.messages_booked,
            )
            λ w₂. (
              record { tables = tables_of; messages_booked = refl; bytes_booked = λ _. refl },
              record { messages = refl; blobs = refl; stored_messages = sym v.messages_booked },
            )
    where
      same : SameMail s queued_more
      same = record { messages = refl; blobs = refl; stored_messages = refl }

  reload-Sound :
      (w : Schedule)
      → Post (λ _. Sound s) Never ((try load_storage_usage >>= after_load) queued_more w)
  unfolding after_load
  reload-Sound w =
      try-Post (λ _. Sound s) (λ _. Loading) Never (λ _. Sound s) after_load load_storage_usage
        queued_more w (loaded-Post w)
        (λ a t w₁ sound.
          bind-Post (λ e u. Steady t u × RealOption e) Never Never (λ _. Sound s) drain_pending _ t
            w₁ (drain_pending-Steady t w₁ sound.0) (λ e t h. h)
            λ e u w₂ h. Sound-trans s t u sound (h.0.0, h.0.1))
        (λ e t w₁ (same, tables, books). (
          record { tables = tables; messages_booked = books; bytes_booked = λ h. cc },
          record {
            messages = same.messages;
            blobs = same.blobs;
            stored_messages = same.stored_messages;
          },
        ))

pub insert_pending_new-Ordered :
    (new : PendingFile) (pending : List PendingFile)
    → Ordered pending
    → Ordered (insert_pending_new new pending)
unfolding insert_pending_new
insert_pending_new-Ordered new pending o = elim (Bool-cases (is_pending new.path pending)) [
  | inl e ↦ rw e o
  | inr e ↦ rw e (insert_pending-Ordered new pending e o)
]

discard_recorded-Sound :
    (path : Bytes) (size : ℕ) (s : Store) (w : Schedule)
    → IsValid s
    → Post (λ _. Sound s) Never (discard_recorded path size s w)
unfolding discard_recorded
discard_recorded-Sound path size s w v =
    let new : PendingFile = record { path = path; size = size } in
    let pending = insert_pending_new new s.db.pending in
    let o = insert_pending_new-Ordered new s.db.pending v.tables.queue_ordered in
    reload-Sound s pending v o w

abbrev faulty : Bool → ℕ → Store → Store
faulty gone size s =
    if gone then s else record s { stored_bytes = s.stored_bytes +ℤ pos size; storage_fault = true }

faulty-Sound :
    (gone : Bool) (path : Bytes) (size : ℕ) (s : Store)
    → IsValid s
    → Sound s (faulty gone size (unlinked_file gone path s))
faulty-Sound true path size s v = (
  record { tables = v.tables; messages_booked = v.messages_booked; bytes_booked = v.bytes_booked },
  record { messages = refl; blobs = refl; stored_messages = refl },
)
faulty-Sound false path size s v = (
  record { tables = v.tables; messages_booked = v.messages_booked; bytes_booked = λ h. cc },
  record { messages = refl; blobs = refl; stored_messages = refl },
)

discard_unrecorded-Sound :
    (path : Bytes) (size : ℕ) (s : Store) (w : Schedule)
    → IsValid s
    → Post (λ _. Sound s) Never (discard_unrecorded path size s w)
unfolding discard_unrecorded
discard_unrecorded-Sound path size s w v =
    bind-Post (λ gone t. t ≡ unlinked_file gone path s) Never Never (λ _. Sound s)
      (remove_file path) _ s w (remove_file-Post path s w) (λ e t h. h)
      λ gone t w₁ same.
        succeeds-Post (λ _. Sound s) Never _ (faulty gone size t) w₁
          λ b w₂.
            subst (λ t. Sound s (faulty gone size t)) (sym same) (faulty-Sound gone path size s v)

-- From any valid store, whatever calls fail: discardFileLocked does not fail, and leaves a valid store
-- with the same messages and blobs.
pub discard_file-Sound :
    (path : Bytes) (size : ℕ) (s : Store) (w : Schedule)
    → IsValid s
    → Post (λ _. Sound s) Never (discard_file path size s w)
unfolding discard_file
discard_file-Sound path size s w v =
    succeeds-Post (λ _. Sound s) Never _ s w
      λ recorded w₁.
        if-Post (λ _. Sound s) Never recorded (discard_recorded path size)
          (discard_unrecorded path size) s w₁ (λ _. discard_recorded-Sound path size s w₁ v)
          (λ _. discard_unrecorded-Sound path size s w₁ v)

-- Files outside the tables do not matter to the books.
pub OnlyFiles-Steady : (s t : Store) → IsValid s → OnlyFiles s t → Steady s t
OnlyFiles-Steady s t v only = subst (Steady s) (sym only) (
  record { tables = v.tables; messages_booked = v.messages_booked; bytes_booked = v.bytes_booked },
  record { messages = refl; blobs = refl; stored_messages = refl },
  refl,
)
