-- ===== src/Store/Save/Run.antt =====
-- The course of a call of Save that succeeds.
use tmpmail_fyi.Common.{leb, length, Bytes, ◌<◌, ◌≡◌, not, some, List, []}
use tmpmail_fyi.Config.{Config}
use tmpmail_fyi.Store.State.{
  Store, Schedule, no_recipients, message_too_large, storage_too_small, done,
}
use tmpmail_fyi.Store.Tables.{find_file, write_file}
use tmpmail_fyi.Store.Tables.Queue.{}
use tmpmail_fyi.Store.Post.{}
use tmpmail_fyi.Store.Valid.{}
use tmpmail_fyi.Store.Pending.{is_empty}
use tmpmail_fyi.Store.Pending.Drain.{OnlyFiles}
use tmpmail_fyi.Store.Pending.Keeps.{}
use tmpmail_fyi.Store.Pending.Guarded.{}
use tmpmail_fyi.Store.Evict.Bounds.{}
use tmpmail_fyi.Store.Save.{
  Message, MailParser, Draws, dedupe, final_path, temp_path, admit, write_temp, publish,
  remove_temp, commit, deliver, save,
}
use tmpmail_fyi.Store.Save.Insert.{}
use tmpmail_fyi.Store.Save.Delivery.{}
use tmpmail_fyi.Store.Save.Deferred.{}
use tmpmail_fyi.Store.Save.Files.{}
use tmpmail_fyi.Store.Save.Settled.{is_empty-false}
use tmpmail_fyi.Store.Save.Filed.{
  CallsSucceed, bind-done, guard-done, guard-true, attempt-done, deferred-done, write_temp-done,
  publish-done,
}

module _ (mail : MailParser) (cfg : Config) (msg_dir : Bytes) (d : Draws) where
  module _ (s : Store) (w : Schedule) (recipients : List Bytes) (sender raw : Bytes)
      (messages : List Message) where
    -- How a run of Save from `s` to `t` went: the temporary file was created, the calls of Write, Chmod,
    -- Sync, Close, the rename and the sync of the directory all succeeded, the transaction began with
    -- the whole mail in the file that its blob names, and the temporary file was cleaned up at last.
    pub record IsFiled (t : Store) : Type 0 where
      pub admitted : Store
      pub written : Store
      pub filed : Store
      pub ended : Store
      pub to_create : Schedule
      pub to_write : Schedule
      pub to_publish : Schedule
      pub to_commit : Schedule
      pub to_clean : Schedule
      pub last : Schedule
      pub admission : admit mail cfg msg_dir d (length raw) s w ≡ done tt admitted to_create
      pub creation : CallsSucceed 1 to_create to_write
      pub writing :
          let created : Store = record admitted {
            files = write_file (temp_path mail cfg msg_dir d) [] admitted.files;
          } in
          write_temp mail cfg msg_dir d raw created to_write ≡ done tt written to_publish
      pub all_written : CallsSucceed 4 to_write to_publish
      pub publication : publish mail cfg msg_dir d raw written to_publish ≡ done tt filed to_commit
      pub all_published : CallsSucceed 2 to_publish to_commit
      pub moved : OnlyFiles written filed
      pub some_one : 0 < length (dedupe recipients)
      pub in_place : find_file (final_path mail cfg msg_dir d) filed.files ≡ some raw
      pub transaction :
          commit mail cfg msg_dir d (dedupe recipients) sender raw filed to_commit
          ≡ done messages ended to_clean
      pub cleaning : remove_temp mail cfg msg_dir d ended to_clean ≡ done tt t last

    pub save-IsFiled :
        (t : Store) (v : Schedule)
        → save mail cfg msg_dir d recipients sender raw s w ≡ done messages t v
        → IsFiled t
    unfolding save deliver
    save-IsFiled t v e =
        let after_recipients =
          guard-done (not (is_empty (dedupe recipients))) no_recipients _ s w messages t v e in
        let after_size =
          guard-done (leb (length raw) cfg.max_message_bytes) message_too_large _ s w messages t v
            after_recipients in
        let after_guards =
          guard-done (leb (length raw) cfg.max_storage_bytes) storage_too_small _ s w messages t v
            after_size in
        let (_, s₁, w₁, admission, after_admit) =
          bind-done (admit mail cfg msg_dir d (length raw)) _ s w messages t v after_guards in
        let (w₂, creation, after_create) = attempt-done _ s₁ w₁ messages t v after_admit in
        let created : Store = record s₁ {
          files = write_file (temp_path mail cfg msg_dir d) [] s₁.files;
        } in
        let (s₅, w₅, w₆, delivery, cleaning) =
          deferred-done (deliver mail cfg msg_dir d (dedupe recipients) sender raw)
            (remove_temp mail cfg msg_dir d) created w₂ messages t v after_create in
        let (_, s₃, w₃, writing, after_write) =
          bind-done (write_temp mail cfg msg_dir d raw) _ created w₂ messages s₅ w₅ delivery in
        let (_, s₄, w₄, publication, transaction) =
          bind-done (publish mail cfg msg_dir d raw) _ s₃ w₃ messages s₅ w₅ after_write in
        let (synced, in_place, only) =
          publish-done mail cfg msg_dir d raw s₃ w₃ s₄ w₄ publication in
        record {
          admitted = s₁;
          written = s₃;
          filed = s₄;
          ended = s₅;
          to_create = w₁;
          to_write = w₂;
          to_publish = w₃;
          to_commit = w₄;
          to_clean = w₅;
          last = w₆;
          admission = admission;
          creation = creation;
          writing = writing;
          all_written = write_temp-done mail cfg msg_dir d raw created w₂ s₃ w₃ writing;
          publication = publication;
          all_published = synced;
          in_place = in_place;
          moved = only;
          some_one =
              is_empty-false mail cfg msg_dir d (dedupe recipients) (
                guard-true (not (is_empty (dedupe recipients))) no_recipients _ s w messages t v e);
          transaction = transaction;
          cleaning = cleaning;
        }
