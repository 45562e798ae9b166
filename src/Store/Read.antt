-- ===== src/Store/Read.antt =====
-- Reading: (s *Store) ListPageContext, List, GetContext and Status of internal/app/store.go. The
-- contexts and the metrics are left out; limit and offset are not negative, as the callers see to.
pub mod Pages
use tmpmail_fyi.Common.{
  ltb, leb, if◌then◌else◌, length, take, drop, keep_if, Bytes, eq_bytes, ℤ, ℕ, suc, ◌*◌, Bool, ◌&&◌,
  Option, none, some, List, [], ◌∷◌, map,
}
use tmpmail_fyi.Address.{normalize_recipient}
use tmpmail_fyi.Store.State.{
  Row, Store, M, ◌>>=◌, ◌>>◌, pure, get, or_fail, attempt, no_rows, external,
}
use tmpmail_fyi.Store.Tables.{find_blob, find_file}
use tmpmail_fyi.Store.Save.{Message}

-- time.Unix(t, 0), in nanoseconds.
abbrev from_unix : ℕ → ℕ
from_unix t = t * 1_000_000_000

unfoldable pub scan_message : Row → Message
scan_message r = record {
  id = r.id;
  recipient = r.recipient;
  from = r.sender;
  subject = r.subject;
  received = from_unix r.received_at;
  expires_at = from_unix r.expires_at;
  size = r.size;
  body = [];
}

-- WHERE recipient = ? AND expires_at > ?
abbrev pub is_visible : Bytes → ℕ → Row → Bool
is_visible recipient now r = eq_bytes r.recipient recipient && ltb now r.expires_at

-- ORDER BY received_at DESC, rowid DESC: the rows come in the order of their rowids.
unfoldable pub insert_newest : Row → List Row → List Row
insert_newest r [] = r ∷ []
insert_newest r (q ∷ rows) =
    if leb q.received_at r.received_at then r ∷ q ∷ rows else q ∷ insert_newest r rows

unfoldable pub newest_first : List Row → List Row → List Row
unfolding insert_newest
newest_first sorted [] = sorted
newest_first sorted (r ∷ rows) = newest_first (insert_newest r sorted) rows

unfoldable pub select_page : Bytes → ℕ → ℕ → ℕ → List Row → List Row
unfolding newest_first
select_page recipient now limit offset rows =
    take limit (drop offset (newest_first [] (keep_if (is_visible recipient now) rows)))

-- One row more than the page tells whether there are more.
unfoldable pub list_page : ℕ → Bytes → ℕ → ℕ → M (List Message × Bool)
unfolding normalize_recipient attempt select_page scan_message
list_page now recipient limit offset = do
  attempt
  s ← get
  let rows = select_page (normalize_recipient recipient) now (suc limit) offset s.db.messages
  attempt
  let messages = map scan_message rows
  pure (
    if ltb limit (length messages) then take limit messages else messages,
    ltb limit (length messages),
  )

unfoldable pub list_first : ℕ → Bytes → M (List Message)
unfolding list_page
list_first now recipient = do (messages, more) ← list_page now recipient 100 0; pure messages

unfoldable pub find_visible : ℕ → Bytes → List Row → Option Row
find_visible now id [] = none
find_visible now id (r ∷ rows) =
    if eq_bytes r.id id && ltb now r.expires_at then some r else find_visible now id rows

-- The row joined with its blob, and the content of the file.
unfoldable pub get_message : ℕ → Bytes → M Message
unfolding attempt find_visible find_blob find_file scan_message
get_message now id = do
  attempt
  s ← get
  row ← or_fail (find_visible now id s.db.messages) no_rows
  blob ← or_fail (find_blob row.blob_id s.db.blobs) no_rows
  attempt
  body ← or_fail (find_file blob.path s.files) external
  pure (record (scan_message row) { body = body })

pub record StoreStatus : Type 0 where
  pub stored_bytes : ℤ
  pub stored_messages : ℤ
  pub cleanup_errors : ℕ
  pub last_cleanup : Option ℕ

unfoldable pub status : Store → StoreStatus
status s = record {
  stored_bytes = s.stored_bytes;
  stored_messages = s.stored_messages;
  cleanup_errors = s.cleanup_error_count;
  last_cleanup = s.last_cleanup;
}
