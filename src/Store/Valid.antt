-- ===== src/Store/Valid.antt =====
-- Well-formed tables, and the books of the store.
use tmpmail_fyi.Common.{length, All, Bytes, pos, ℕ, ◌+◌, ◌≡◌, ap, ◌∙◌, false}
use tmpmail_fyi.Store.State.{Db, Store, Error, IsReal}
use tmpmail_fyi.Store.Tables.{blob_bytes, pending_bytes}
use tmpmail_fyi.Store.Tables.Rows.{UniqueRows, refs}
use tmpmail_fyi.Store.Tables.Blobs.{UniqueBlobs, IsHeld, recorded_refs}
use tmpmail_fyi.Store.Tables.Queue.{Ordered}

-- Keys are unique, and each blob records exactly the rows that hold it, at least one.
pub record WellFormed (db : Db) : Type 0 where
  pub rows_unique : UniqueRows db.messages
  pub blobs_unique : UniqueBlobs db.blobs
  pub queue_ordered : Ordered db.pending
  pub counted : (k : Bytes) → refs k db.messages ≡ recorded_refs k db.blobs
  pub held : All IsHeld db.blobs

-- The bytes that a database charges: unique blobs and files awaiting deletion.
unfoldable pub charged : Db → ℕ
unfolding blob_bytes pending_bytes
charged db = blob_bytes db.blobs + pending_bytes db.pending

-- The books of the store agree with its tables, those of bytes until a fault is raised.
pub record IsValid (s : Store) : Type 0 where
  pub tables : WellFormed s.db
  pub messages_booked : s.stored_messages ≡ pos (length s.db.messages)
  pub bytes_booked : s.storage_fault ≡ false → s.stored_bytes ≡ pos (charged s.db)

-- Only the database changes.
abbrev pub OnlyDb : Store → Store → Type 0
OnlyDb s t = t ≡ record s { db = t.db }

pub OnlyDb-trans : (s t u : Store) → OnlyDb s t → OnlyDb t u → OnlyDb s u
OnlyDb-trans s t u p q = q ∙ ap (λ (x : Store). record x { db = u.db }) p

abbrev pub OnlyDbError : Store → Error → Store → Type 0
OnlyDbError s e t = IsReal e × OnlyDb s t
