-- ===== src/Store/Recovery.antt =====
-- Part of the start of a store: (s *Store) normalizeStoredRecipients of internal/app/store.go.
pub mod Readdress
pub mod Canonical
use tmpmail_fyi.Common.{if◌then◌else◌, keep_if, Bytes, eq_bytes, Bool, not, List, [], ◌∷◌, map}
use tmpmail_fyi.Address.{normalize_recipient, contains_recipient}
use tmpmail_fyi.Store.State.{Row, M, ◌>>=◌, ◌>>◌, pure, get, modify_db, attempt, in_tx}
use tmpmail_fyi.Store.Pending.{is_empty}

-- SELECT DISTINCT recipient FROM messages; SQLite may return them in any order.
unfoldable pub distinct_recipients : List Row → List Bytes
unfolding contains_recipient
distinct_recipients [] = []
distinct_recipients (r ∷ rows) =
    let rest = distinct_recipients rows in
    if contains_recipient rest r.recipient then rest else r.recipient ∷ rest

abbrev pub is_stale : Bytes → Bool
is_stale recipient = not (eq_bytes recipient (normalize_recipient recipient))

unfoldable pub stale_recipients : List Row → List Bytes
unfolding distinct_recipients
stale_recipients rows = keep_if is_stale (distinct_recipients rows)

unfoldable pub rename_row : Bytes → Row → Row
unfolding normalize_recipient
rename_row recipient r =
    if eq_bytes r.recipient recipient
    then record r { recipient = normalize_recipient recipient }
    else r

-- UPDATE messages SET recipient = ? WHERE recipient = ?, for each recipient.
unfoldable pub rename_all : List Bytes → M (Unit {0})
unfolding attempt rename_row
rename_all [] = pure tt
rename_all (recipient ∷ recipients) = do
  attempt
  modify_db λ db. record db { messages = map (rename_row recipient) db.messages }
  rename_all recipients

unfoldable pub normalize_stored_recipients : M (Unit {0})
unfolding attempt stale_recipients in_tx rename_all
normalize_stored_recipients = do
  attempt
  s ← get
  attempt
  let recipients = stale_recipients s.db.messages
  if is_empty recipients then pure tt else in_tx (rename_all recipients)
