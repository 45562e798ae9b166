-- ===== src/Store/Save/AtEnd.antt =====
-- From the transaction of Save to its end the mail file stays.
use tmpmail_fyi.Common.{
  length, any, Bytes, eq_bytes, eq_bytes_refl, eq_bytes_iff, ◌<◌, ◌≡◌, refl, ap, subst, ◌∙◌, false,
  some, List, [], arith,
}
use tmpmail_fyi.Config.{Config}
use tmpmail_fyi.Store.State.{Db, Store, Schedule, pure, in_tx, done}
use tmpmail_fyi.Store.Tables.{find_blob, is_pending, find_file, write_file}
use tmpmail_fyi.Store.Post.{}
use tmpmail_fyi.Store.Valid.{IsValid}
use tmpmail_fyi.Store.Pending.{discard_file}
use tmpmail_fyi.Store.Pending.Drain.{OnlyFiles, Never}
use tmpmail_fyi.Store.Pending.Keeps.{OnlyFiles-Steady}
use tmpmail_fyi.Store.Pending.Guarded.{Guarded}
use tmpmail_fyi.Store.Evict.Bounds.{IsApart}
use tmpmail_fyi.Store.Save.{
  Message, MailParser, mail_details, Draws, dedupe, on_failure, final_path, temp_path, save_tx,
  admit, write_temp, remove_temp, settle, commit,
}
use tmpmail_fyi.Store.Save.Insert.{with_delivery}
use tmpmail_fyi.Store.Save.Delivery.{Commits}
use tmpmail_fyi.Store.Save.Deferred.{SoundError}
use tmpmail_fyi.Store.Save.Files.{OnlyFilesError, Admitted, admit-Admitted, write_temp-OnlyFiles}
use tmpmail_fyi.Store.Save.Settled.{committed-Post}
use tmpmail_fyi.Store.Save.Filed.{bind-done}
use tmpmail_fyi.Store.Save.Run.{IsFiled}
use tmpmail_fyi.Store.Save.Readable.{
  from_done, no_path, is_taken, admit-Guarded, settle-Guarded, remove_temp-Guarded,
}

module _ (mail : MailParser) (cfg : Config) (msg_dir : Bytes) (d : Draws) (recipients : List Bytes)
    (sender raw : Bytes) (some_one : 0 < length recipients) where
  abbrev path : Bytes
  path = final_path mail cfg msg_dir d

  delivery-IsApart :
      (details : Bytes × Bytes) (db : Db)
      → any (λ b. eq_bytes b.path path) db.blobs ≡ false
      → IsApart d.blob_id path (with_delivery mail cfg msg_dir d details (length raw) recipients db)
  unfolding find_blob
  delivery-IsApart details db none_has k b h other =
      let apart : eq_bytes d.blob_id k ≡ false =
        ground (arith, other, eq_bytes_iff d.blob_id k, eq_bytes_refl d.blob_id) in
      no_path path db.blobs k b none_has (rw apart at h)

  -- The transaction queues other files only, and so does what follows.
  pub commit-Guarded :
      (s : Store) (w : Schedule) (messages : List Message) (t : Store) (v : Schedule)
      → IsValid s
      → is_pending path s.db.pending ≡ false
      → any (λ b. eq_bytes b.path path) s.db.blobs ≡ false
      → eq_bytes (temp_path mail cfg msg_dir d) path ≡ false
      → find_file path s.files ≡ some raw
      → commit mail cfg msg_dir d recipients sender raw s w ≡ done messages t v
      → Guarded path (some raw) t
  unfolding commit
  commit-Guarded s w messages t v valid free none_has apart filed e =
      let details = mail_details mail raw sender in
      let tx =
        on_failure (in_tx (save_tx mail cfg msg_dir d recipients details (length raw)))
          (discard_file path (length raw)) in
      let (result, u, x, committed, rest) = bind-done tx _ s w messages t v e in
      let (c, only) =
        from_done (Commits mail cfg msg_dir d details (length raw) recipients s) (SoundError s)
          (tx s w) result u x committed
          (committed-Post mail cfg msg_dir d s recipients sender raw w valid some_one) in
      let guarded : Guarded path (some raw) u = record {
        ordered = c.evicted.tables.queue_ordered;
        free = c.evicted.unqueued path (delivery-IsApart details s.db none_has) free;
        file = ap (λ (y : Store). find_file path y.files) only ∙ filed;
      } in
      let (_, y, z, settled, returned) =
        bind-done (settle mail cfg msg_dir d recipients (length raw) result.1) (λ _. pure result.0)
          u x messages t v rest in
      let same : y ≡ t = cc in
      subst (Guarded path (some raw)) same (
        from_done (λ _. Guarded path (some raw)) Never
          (settle mail cfg msg_dir d recipients (length raw) result.1 u x) tt y z settled
          (settle-Guarded mail cfg msg_dir d (some raw) apart recipients (length raw) result.1 u x
            guarded))

module _ (mail : MailParser) (cfg : Config) (msg_dir : Bytes) (d : Draws) where
  -- Where the path was not taken, a run of Save that succeeds leaves the whole mail in its file.
  pub IsFiled-file :
      (s : Store) (w : Schedule) (recipients : List Bytes) (sender raw : Bytes)
      (messages : List Message) (t : Store)
      → IsValid s
      → is_taken mail cfg msg_dir d s ≡ false
      → IsFiled mail cfg msg_dir d s w recipients sender raw messages t
      → find_file (final_path mail cfg msg_dir d) t.files ≡ some raw
  IsFiled-file s w recipients sender raw messages t v untaken f =
      let path = final_path mail cfg msg_dir d in
      let temp = temp_path mail cfg msg_dir d in
      let apart : eq_bytes temp path ≡ false = ground (arith, untaken) in
      let free : is_pending path s.db.pending ≡ false = ground (arith, untaken) in
      let none_has : any (λ b. eq_bytes b.path path) s.db.blobs ≡ false = ground (arith, untaken) in
      let start : Guarded path (find_file path s.files) s = record {
        ordered = v.tables.queue_ordered;
        free = free;
        file = refl;
      } in
      let guarded =
        from_done (λ _. Guarded path (find_file path s.files)) (λ e t. Unit)
          (admit mail cfg msg_dir d (length raw) s w) tt f.admitted f.to_create f.admission
          (admit-Guarded mail cfg msg_dir d (find_file path s.files) apart (length raw) s w
            start) in
      let (steady, _) =
        from_done (Admitted mail cfg msg_dir d s) (SoundError s)
          (admit mail cfg msg_dir d (length raw) s w) tt f.admitted f.to_create f.admission
          (admit-Admitted mail cfg msg_dir d (length raw) s w v) in
      let created : Store = record f.admitted { files = write_file temp [] f.admitted.files } in
      let written : OnlyFiles created f.written =
        from_done (λ _. OnlyFiles created) (OnlyFilesError created)
          (write_temp mail cfg msg_dir d raw created f.to_write) tt f.written f.to_publish f.writing
          (write_temp-OnlyFiles mail cfg msg_dir d raw created f.to_write) in
      let only : OnlyFiles f.admitted f.filed =
        f.moved ∙ ap (λ (x : Store). record x { files = f.filed.files }) written in
      let db : f.filed.db ≡ f.admitted.db = ap (λ (x : Store). x.db) only in
      let ended =
        commit-Guarded mail cfg msg_dir d (dedupe recipients) sender raw f.some_one f.filed
          f.to_commit messages f.ended f.to_clean
          (OnlyFiles-Steady f.admitted f.filed steady.0 only).0
          (ap (λ (x : Db). is_pending path x.pending) db ∙ guarded.free)
          (ap (λ (x : Db). any (λ b. eq_bytes b.path path) x.blobs) db
            ∙ ap (any (λ b. eq_bytes b.path path)) steady.1.blobs
            ∙ none_has)
          apart f.in_place f.transaction in
      let cleaned =
        from_done (λ _. Guarded path (some raw)) Never
          (remove_temp mail cfg msg_dir d f.ended f.to_clean) tt t f.last f.cleaning
          (remove_temp-Guarded mail cfg msg_dir d (some raw) apart f.ended f.to_clean ended) in
      cleaned.file
