-- ===== src/Store/Save/Delivery.antt =====
-- The transaction of Save: insertion and eviction commit together.
use tmpmail_fyi.Common.{
  length, All, Bytes, eq_bytes, ◌+ℤ◌, ◌-ℤ◌, ltb_ℤ, pos, ℕ, ◌<◌, ◌≡◌, refl, true, false, none, some,
  List, [], ◌∷◌,
}
use tmpmail_fyi.Config.{Config}
use tmpmail_fyi.Store.State.{Row, Db, Store, CleanupStats, no_stats, Schedule}
use tmpmail_fyi.Store.Tables.{find_blob, find_row}
use tmpmail_fyi.Store.Tables.Rows.{UniqueRows}
use tmpmail_fyi.Store.Post.{Post, bind-Post, weaken-Post, step-Post}
use tmpmail_fyi.Store.Valid.{WellFormed, OnlyDb, OnlyDb-trans, OnlyDbError}
use tmpmail_fyi.Store.Evict.{evict_tx}
use tmpmail_fyi.Store.Evict.Oldest.{Holds, find_row_of_Holds}
use tmpmail_fyi.Store.Evict.Bounds.{Evicted, Fitted, evict_tx-Fitted}
use tmpmail_fyi.Store.Save.{unix, Message, MailParser, Draws, insert_blob, insert_messages, save_tx}
use tmpmail_fyi.Store.Save.Insert.{
  All-Holds_self, insert_blob-Post, rows_of, messages_of, insert_messages-Post, rows_of-blob,
  delivery_blob, with_delivery, with_delivery-WellFormed,
}

-- Every one of the rows is in the table, under its own key.
abbrev pub AllStored : List Row → List Row → Type 0
AllStored table = All (λ r. find_row r.id table ≡ some r)

module _ (before : ℕ) (protected : Bytes) where
  AllStored-of_Holds :
      (db after : Db) (stats stats' : CleanupStats) (freed : ℕ) (rows : List Row)
      → UniqueRows db.messages
      → Evicted before protected db stats freed after stats'
      → All (λ r. Holds r db.messages) rows
      → All (λ r. eq_bytes r.blob_id protected ≡ true) rows
      → AllStored after.messages rows
  AllStored-of_Holds db after stats stats' freed [] u e h k = tt
  AllStored-of_Holds db after stats stats' freed (r ∷ rows) u e (p, h) (q, k) = (
    e.kept r.id r (find_row_of_Holds r db.messages u p) q,
    AllStored-of_Holds db after stats stats' freed rows u e h k,
  )

module _ (mail : MailParser) (cfg : Config) (msg_dir : Bytes) (d : Draws) (details : Bytes × Bytes)
    (size : ℕ) (recipients : List Bytes) where
  abbrev pub inserted : Store → Store
  inserted s = record s { db = with_delivery mail cfg msg_dir d details size recipients s.db }

  -- What the transaction commits.
  pub record Committed (s : Store) (result : List Message × CleanupStats) (t : Store) : Type 0 where
    pub messages : result.0 ≡ messages_of mail cfg msg_dir d details size 0 recipients
    pub stored : AllStored t.db.messages (rows_of mail cfg msg_dir d details size 0 recipients)
    pub freed : ℕ
    pub evicted :
        Evicted
          (unix d.before)
          d.blob_id
          (with_delivery mail cfg msg_dir d details size recipients s.db)
          no_stats
          freed
          t.db
          result.1
    pub fits : ltb_ℤ (pos cfg.max_storage_bytes) ((s.stored_bytes +ℤ pos size) -ℤ pos freed) ≡ false

  abbrev pub Commits : Store → List Message × CleanupStats → Store → Type 0
  Commits s result t = Committed s result t × OnlyDb s t

  Fitted-Commits :
      (s : Store) (messages : List Message) (stats : CleanupStats) (t : Store)
      → WellFormed (inserted s).db
      → messages ≡ messages_of mail cfg msg_dir d details size 0 recipients
      → Fitted cfg.max_storage_bytes
          (unix d.before)
          d.blob_id
          (inserted s)
          no_stats
          (s.stored_bytes +ℤ pos size)
          stats
          t
      → Commits s (messages, stats) t
  Fitted-Commits s messages stats t v same (freed, e, fits, only) = (
    record {
      messages = same;
      stored =
          AllStored-of_Holds (unix d.before) d.blob_id (inserted s).db t.db no_stats stats freed
            (rows_of mail cfg msg_dir d details size 0 recipients) v.rows_unique e
            (All-Holds_self s.db.messages (rows_of mail cfg msg_dir d details size 0 recipients))
            (rows_of-blob mail cfg msg_dir d details size 0 recipients);
      freed = freed;
      evicted = e;
      fits = fits;
    },
    OnlyDb-trans s (inserted s) t refl only,
  )

  pub save_tx-Commits :
      (s : Store) (w : Schedule)
      → WellFormed s.db
      → 0 < length recipients
      → Post (Commits s) (OnlyDbError s) (save_tx mail cfg msg_dir d recipients details size s w)
  unfolding save_tx
  save_tx-Commits s w v some_one =
      let blob = delivery_blob mail cfg msg_dir d details size recipients in
      let s₁ : Store = record s { db = record s.db { blobs = blob ∷ s.db.blobs } } in
      step-Post s₁ (λ _. find_blob d.blob_id s.db.blobs ≡ none) (OnlyDbError s) (Commits s)
        (insert_blob blob) _ s w (insert_blob-Post blob s w)
        λ _ w₁ fresh.
          step-Post (inserted s)
            (λ messages.
              (messages ≡ messages_of mail cfg msg_dir d details size 0 recipients)
              × WellFormed (inserted s).db)
            (OnlyDbError s) (Commits s)
            (insert_messages mail cfg msg_dir d 0 recipients details size) _ s₁ w₁
            (weaken-Post _ _ (OnlyDbError s) (OnlyDbError s)
              (insert_messages mail cfg msg_dir d 0 recipients details size) s₁ w₁
              (insert_messages-Post mail cfg msg_dir d details size 0 recipients s s₁ w₁ refl
                v.rows_unique)
              (λ messages t (same, end, unique). (
                (
                  same,
                  with_delivery-WellFormed mail cfg msg_dir d details size recipients s.db v fresh
                      unique some_one,
                ),
                end,
              ))
              (λ e t h. h))
            λ messages w₂ (same, tables).
              bind-Post
                (Fitted cfg.max_storage_bytes (unix d.before) d.blob_id (inserted s) no_stats
                  (s.stored_bytes +ℤ pos size))
                (OnlyDbError s) (OnlyDbError (inserted s)) (Commits s)
                (evict_tx cfg (unix d.before) d.blob_id size) _ (inserted s) w₂
                (evict_tx-Fitted cfg (unix d.before) d.blob_id size (inserted s) w₂ tables)
                (λ e t (real, only). (real, OnlyDb-trans s (inserted s) t refl only))
                λ stats t w₃ fitted. Fitted-Commits s messages stats t tables same fitted
