-- ===== src/Store/Save.antt =====
-- (s *Store) Save and mailDetails of internal/app/store.go. Times are in nanoseconds.
pub mod Insert
pub mod Delivery
pub mod Books
pub mod Deferred
pub mod Files
pub mod Settled
pub mod Filed
pub mod Run
pub mod Readable
pub mod AtEnd
pub mod Correct
pub mod Dedupe
use tmpmail_fyi.Common.{
  ltb, leb, if◌then◌else◌, is_none, length, take, Bytes, codes, ◌+ℤ◌, ◌-ℤ◌, ltb_ℤ, pos, ℕ, suc, ◌+◌,
  ◌/◌, Bool, not, ◌||◌, Option, none, some, List, [], ◌∷◌, ◌++◌,
}
use tmpmail_fyi.Config.{Config}
use tmpmail_fyi.Address.{normalize_recipient, contains_recipient}
use tmpmail_fyi.Store.State.{
  Row, Blob, CleanupStats, M, ◌>>=◌, ◌>>◌, pure, fail, get, modify, modify_db, guard, succeeds,
  attempt, Try, try, in_tx, no_recipients, message_too_large, storage_too_small, recovery_required,
  above_limit, pending_exhausted, constraint, external, done, failed, good, bad,
}
use tmpmail_fyi.Store.Tables.{
  find_blob, find_row, pending_bytes, find_file, delete_file, write_file,
}
use tmpmail_fyi.Store.Pending.{remove_file, is_empty, retry_pending, discard_file}
use tmpmail_fyi.Store.Evict.{evict_tx}

-- time.Time.Unix
abbrev pub unix : ℕ → ℕ
unix t = t / 1_000_000_000

pub record Message : Type 0 where
  pub id : Bytes
  pub recipient : Bytes
  pub from : Bytes
  pub subject : Bytes
  pub received : ℕ
  pub expires_at : ℕ
  pub size : ℕ
  pub body : Bytes

-- net/mail and mime: the header fields of a message, if it has a header, and their decoding.
pub record MailParser : Type 0 where
  pub read_header : Bytes → Option (Bytes → Bytes)
  pub decode_header : Bytes → Option Bytes

abbrev decoded_or : Bytes → Option Bytes → Bytes
decoded_or fallback none = fallback
decoded_or fallback (some []) = fallback
decoded_or fallback (some (c ∷ s)) = c ∷ s

-- The subject and the sender.
unfoldable pub mail_details : MailParser → Bytes → Bytes → Bytes × Bytes
mail_details mail raw fallback = elim (mail.read_header raw) [
  | none ↦ (codes "(no subject)", fallback)
  | some header ↦ (
    decoded_or (codes "(no subject)") (mail.decode_header (header (codes "Subject"))),
    decoded_or fallback (mail.decode_header (header (codes "From"))),
  )
]

-- What a call of Save takes from its surroundings: the clock at three points, the random names, and
-- how many bytes reach the file if the write fails.
pub record Draws : Type 0 where
  pub now : ℕ
  pub before : ℕ
  pub settled : ℕ
  pub blob_id : Bytes
  pub temp_id : Bytes
  pub message_id : ℕ → Bytes
  pub written : ℕ

-- The canonical recipients, each once, in the order of their first mention.
unfoldable pub dedupe_from : List Bytes → List Bytes → List Bytes
unfolding normalize_recipient contains_recipient
dedupe_from normalized [] = normalized
dedupe_from normalized (recipient ∷ recipients) =
    let r = normalize_recipient recipient in
    dedupe_from (if contains_recipient normalized r then normalized else normalized ++ r ∷ [])
      recipients

unfoldable pub dedupe : List Bytes → List Bytes
unfolding dedupe_from
dedupe recipients = dedupe_from [] recipients

-- The first part of a function whose deferred call comes second, and a handler of its failure.
unfoldable pub deferred {ℓ} : {A : Type ℓ} → M A → M (Unit {0}) → M A
deferred body last s w = elim (body s w) [
  | done a t v ↦ (last >> pure a) t v
  | failed e t v ↦ (last >> fail e) t v
]

unfoldable pub on_failure {ℓ} : {A : Type ℓ} → M A → M (Unit {0}) → M A
on_failure body handler s w = elim (body s w) [
  | done a t v ↦ done a t v
  | failed e t v ↦ (handler >> fail e) t v
]

unfoldable pub insert_blob : Blob → M (Unit {0})
unfolding attempt find_blob
insert_blob blob = do
  attempt
  s ← get
  guard (is_none (find_blob blob.id s.db.blobs)) constraint
  modify_db λ db. record db { blobs = blob ∷ db.blobs }

unfoldable pub insert_row : Row → M (Unit {0})
unfolding attempt find_row
insert_row row = do
  attempt
  s ← get
  guard (is_none (find_row row.id s.db.messages)) constraint
  modify_db λ db. record db { messages = db.messages ++ row ∷ [] }

-- The error of Close counts when there was none before.
unfoldable pub after_close : Bool → Try (Unit {0}) → M (Unit {0})
after_close closed (good _) = guard closed external
after_close closed (bad e) = fail e

module _ (mail : MailParser) (cfg : Config) (msg_dir : Bytes) (d : Draws) where
  abbrev pub final_path : Bytes
  final_path = msg_dir ++ b'/' ∷ d.blob_id ++ codes ".eml"

  abbrev pub temp_path : Bytes
  temp_path = msg_dir ++ b'/' ∷ codes ".incoming-" ++ d.temp_id

  abbrev pub message_row : ℕ → Bytes → Bytes × Bytes → ℕ → Row
  message_row i recipient (subject, from) size = record {
    id = d.message_id i;
    recipient = recipient;
    sender = from;
    subject = subject;
    received_at = unix d.now;
    expires_at = unix (d.now + cfg.message_ttl);
    size = size;
    blob_id = d.blob_id;
  }

  abbrev pub message_of : ℕ → Bytes → Bytes × Bytes → ℕ → Message
  message_of i recipient (subject, from) size = record {
    id = d.message_id i;
    recipient = recipient;
    from = from;
    subject = subject;
    received = d.now;
    expires_at = d.now + cfg.message_ttl;
    size = size;
    body = [];
  }

  unfoldable pub insert_messages : ℕ → List Bytes → Bytes × Bytes → ℕ → M (List Message)
  unfolding insert_row
  insert_messages i [] details size = pure []
  insert_messages i (recipient ∷ recipients) details size = do
    insert_row (message_row i recipient details size)
    messages ← insert_messages (suc i) recipients details size
    pure (message_of i recipient details size ∷ messages)

  -- The transaction: eviction and insertion commit together.
  unfoldable pub save_tx : List Bytes → Bytes × Bytes → ℕ → M (List Message × CleanupStats)
  unfolding insert_blob insert_messages evict_tx
  save_tx recipients details size = do
    insert_blob
        (record { id = d.blob_id; path = final_path; size = size; ref_count = length recipients })
    messages ← insert_messages 0 recipients details size
    stats ← evict_tx cfg (unix d.before) d.blob_id size
    pure (messages, stats)

  -- The checks under the lock.
  unfoldable pub admit : ℕ → M (Unit {0})
  unfolding attempt retry_pending pending_bytes
  admit size = do
    s ← get
    guard (not s.storage_fault) recovery_required
    retry_pending
    t ← get
    guard (not (ltb_ℤ (pos cfg.max_storage_bytes) t.stored_bytes)) above_limit
    attempt
    guard (leb (pending_bytes t.db.pending + size) cfg.max_storage_bytes) pending_exhausted

  -- Write, Chmod, Sync and Close: the file is closed whatever went wrong before.
  unfoldable pub write_temp : Bytes → M (Unit {0})
  unfolding succeeds attempt try write_file after_close
  write_temp raw = do
    complete ← succeeds
    modify λ s. record s {
      files = write_file temp_path (if complete then raw else take d.written raw) s.files;
    }
    written ← try (guard complete external >> attempt >> attempt)
    closed ← succeeds
    after_close closed written

  -- The rename into place, made durable.
  unfoldable pub publish : Bytes → M (Unit {0})
  unfolding attempt write_file delete_file on_failure discard_file
  publish raw = do
    attempt
    modify λ s. record s { files = write_file final_path raw (delete_file temp_path s.files) }
    on_failure attempt (discard_file final_path (length raw))

  -- A temporary file that could not be removed, and may still be there.
  unfoldable pub discard_found : Bool → Option Bytes → M (Unit {0})
  unfolding discard_file
  discard_found readable none = pure tt
  discard_found readable (some content) =
      if readable then discard_file temp_path (length content) else pure tt

  unfoldable pub discard_temp : M (Unit {0})
  unfolding succeeds find_file discard_found
  discard_temp = do
    readable ← succeeds
    s ← get
    discard_found readable (find_file temp_path s.files)

  unfoldable pub remove_temp : M (Unit {0})
  unfolding remove_file discard_temp
  remove_temp = do gone ← remove_file temp_path; if gone then pure tt else discard_temp

  -- After the commit: the books, and the unlinking of what was evicted.
  unfoldable pub settle : List Bytes → ℕ → CleanupStats → M (Unit {0})
  unfolding retry_pending
  settle recipients size stats = do
    modify λ s. record s {
      stored_bytes = s.stored_bytes +ℤ pos size;
      stored_messages =
          s.stored_messages +ℤ (pos (length recipients) -ℤ pos stats.evicted -ℤ pos stats.expired);
    }
    modify λ s.
        if ltb 0 stats.evicted || ltb 0 stats.expired
        then record s { last_cleanup = some d.settled }
        else s
    retry_pending

  -- The transaction, with the file queued for deletion if it fails.
  unfoldable pub commit : List Bytes → Bytes → Bytes → M (List Message)
  unfolding mail_details on_failure in_tx save_tx discard_file settle
  commit recipients sender raw = do
    (messages, stats) ←
        on_failure (in_tx (save_tx recipients (mail_details mail raw sender) (length raw)))
          (discard_file final_path (length raw))
    settle recipients (length raw) stats
    pure messages

  unfoldable pub deliver : List Bytes → Bytes → Bytes → M (List Message)
  unfolding write_temp publish commit
  deliver recipients sender raw = do write_temp raw; publish raw; commit recipients sender raw

  unfoldable pub save : List Bytes → Bytes → Bytes → M (List Message)
  unfolding dedupe attempt write_file admit deferred deliver remove_temp
  save recipients sender raw = do
    let distinct = dedupe recipients
    guard (not (is_empty distinct)) no_recipients
    guard (leb (length raw) cfg.max_message_bytes) message_too_large
    guard (leb (length raw) cfg.max_storage_bytes) storage_too_small
    admit (length raw)
    attempt
    modify λ s. record s { files = write_file temp_path [] s.files }
    deferred (deliver distinct sender raw) remove_temp
