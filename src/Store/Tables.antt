-- ===== src/Store/Tables.antt =====
-- The statements that store.go sends to SQLite, on the tables of `Db`, and the files of the message
-- directory.
pub mod Rows
pub mod Blobs
pub mod Queue
pub mod Part
use tmpmail_fyi.Common.{
  if◌then◌else◌, Bytes, eq_bytes, lt_bytes, ℕ, ◌+◌, ◌-◌, Bool, true, false, Option, none, some,
  List, [], ◌∷◌,
}
use tmpmail_fyi.Store.State.{Row, Blob, PendingFile, File}

-- SELECT … FROM blobs WHERE id = ?
unfoldable pub find_blob : Bytes → List Blob → Option Blob
find_blob key [] = none
find_blob key (b ∷ blobs) = if eq_bytes b.id key then some b else find_blob key blobs

-- DELETE FROM blobs WHERE id = ?
unfoldable pub delete_blob : Bytes → List Blob → List Blob
delete_blob key [] = []
delete_blob key (b ∷ blobs) =
    let rest = delete_blob key blobs in if eq_bytes b.id key then rest else b ∷ rest

-- UPDATE blobs SET ref_count = ref_count - 1 WHERE id = ?, where the count is above one.
unfoldable pub release_blob : Bytes → List Blob → List Blob
release_blob key [] = []
release_blob key (b ∷ blobs) =
    (if eq_bytes b.id key then record b { ref_count = b.ref_count - 1 } else b)
    ∷ release_blob key blobs

unfoldable pub find_row : Bytes → List Row → Option Row
find_row key [] = none
find_row key (r ∷ rows) = if eq_bytes r.id key then some r else find_row key rows

-- DELETE FROM messages WHERE id = ?
unfoldable pub delete_row : Bytes → List Row → List Row
delete_row key [] = []
delete_row key (r ∷ rows) =
    let rest = delete_row key rows in if eq_bytes r.id key then rest else r ∷ rest

unfoldable pub is_pending : Bytes → List PendingFile → Bool
is_pending key [] = false
is_pending key (p ∷ pending) = if eq_bytes p.path key then true else is_pending key pending

-- INSERT INTO pending_deletions, of a path that is not there yet.
unfoldable pub insert_pending : PendingFile → List PendingFile → List PendingFile
insert_pending new [] = new ∷ []
insert_pending new (p ∷ pending) =
    if lt_bytes new.path p.path then new ∷ p ∷ pending else p ∷ insert_pending new pending

-- DELETE FROM pending_deletions WHERE path = ?
unfoldable pub delete_pending : Bytes → List PendingFile → List PendingFile
delete_pending key [] = []
delete_pending key (p ∷ pending) =
    let rest = delete_pending key pending in if eq_bytes p.path key then rest else p ∷ rest

-- SELECT COALESCE(SUM(size), 0) of each table.
unfoldable pub blob_bytes : List Blob → ℕ
blob_bytes [] = 0
blob_bytes (b ∷ blobs) = b.size + blob_bytes blobs

unfoldable pub pending_bytes : List PendingFile → ℕ
pending_bytes [] = 0
pending_bytes (p ∷ pending) = p.size + pending_bytes pending

-- … WHERE path > ? ORDER BY path: the table is in this order.
unfoldable pub pending_after : Bytes → List PendingFile → List PendingFile
pending_after cursor [] = []
pending_after cursor (p ∷ pending) =
    let rest = pending_after cursor pending in if lt_bytes cursor p.path then p ∷ rest else rest

unfoldable pub find_file : Bytes → List File → Option Bytes
find_file key [] = none
find_file key (f ∷ files) = if eq_bytes f.path key then some f.content else find_file key files

unfoldable pub delete_file : Bytes → List File → List File
delete_file key [] = []
delete_file key (f ∷ files) =
    let rest = delete_file key files in if eq_bytes f.path key then rest else f ∷ rest

unfoldable pub write_file : Bytes → Bytes → List File → List File
unfolding delete_file
write_file key content files = record { path = key; content = content } ∷ delete_file key files
