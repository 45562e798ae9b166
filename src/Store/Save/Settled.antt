-- ===== src/Store/Save/Settled.antt =====
-- The store and the messages after Save as a whole.
use tmpmail_fyi.Common.{
  ltb, leb, if◌then◌else◌, length, Bytes, ◌<◌, ◌≡◌, refl, sym, subst, ◌∙◌, Bool, true, false, not,
  ◌||◌, some, List, [], ◌∷◌, arith,
}
use tmpmail_fyi.Config.{Config}
use tmpmail_fyi.Store.State.{
  Store, CleanupStats, IsReal, Schedule, M, ◌>>◌, in_tx, no_recipients, message_too_large,
  storage_too_small,
}
use tmpmail_fyi.Store.Tables.{write_file}
use tmpmail_fyi.Store.Post.{Post, bind-Post, weaken-Post, attempt-Post, guard-Post, in_tx-Post}
use tmpmail_fyi.Store.Valid.{IsValid}
use tmpmail_fyi.Store.Pending.{is_empty, retry_pending, discard_file}
use tmpmail_fyi.Store.Pending.Drain.{OnlyFiles, Never}
use tmpmail_fyi.Store.Pending.Keeps.{
  SameMail-refl, Sound, Sound-trans, Steady, Steady-trans, retry_pending-Steady, discard_file-Sound,
  OnlyFiles-Steady,
}
use tmpmail_fyi.Store.Save.{
  Message, MailParser, mail_details, Draws, dedupe, on_failure, final_path, temp_path, save_tx,
  admit, write_temp, publish, remove_temp, settle, commit, deliver, save,
}
use tmpmail_fyi.Store.Save.Delivery.{Committed, Commits, save_tx-Commits}
use tmpmail_fyi.Store.Save.Books.{
  Delivered, Delivered-Sound, Delivered-before, counted_in, counted_in-Delivered,
}
use tmpmail_fyi.Store.Save.Deferred.{SoundError, deferred-Post, on_failure-Post}
use tmpmail_fyi.Store.Save.Files.{
  OnlyFilesError, remove_temp-Sound, Admitted, admit-Admitted, write_temp-OnlyFiles, publish-Steady,
}

module _ (mail : MailParser) (cfg : Config) (msg_dir : Bytes) (d : Draws) where
  module _ (s : Store) (recipients : List Bytes) (sender raw : Bytes) where
    -- The promise of a delivery to `s`.
    abbrev pub Delivers : List Message → Store → Type 0
    Delivers = Delivered mail cfg msg_dir d (mail_details mail raw sender) (length raw) recipients s

    cleaned-Sound :
        (b : Bool) (t : Store)
        → IsValid t
        → Sound t (if b then record t { last_cleanup = some d.settled } else t)
    cleaned-Sound true t v = (
      record {
        tables = v.tables;
        messages_booked = v.messages_booked;
        bytes_booked = v.bytes_booked;
      },
      record { messages = refl; blobs = refl; stored_messages = refl },
    )
    cleaned-Sound false t v = (v, SameMail-refl t)

    settle-Post :
        (messages : List Message) (stats : CleanupStats) (t : Store) (w : Schedule)
        → Delivers messages (
            counted_in mail cfg msg_dir d
              (mail_details mail raw sender)
              (length raw)
              recipients
              stats
              t)
        → Post
            (λ _. Delivers messages)
            (SoundError s)
            (settle mail cfg msg_dir d recipients (length raw) stats t w)
    unfolding settle
    settle-Post messages stats t w r =
        let after =
          counted_in mail cfg msg_dir d (mail_details mail raw sender) (length raw) recipients stats
            t in
        let cleaned = ltb 0 stats.evicted || ltb 0 stats.expired in
        let x : Store = if cleaned then record after { last_cleanup = some d.settled } else after in
        let sound : Sound after x = cleaned-Sound cleaned after r.valid in
        let saved : Delivers messages x =
          Delivered-Sound mail cfg msg_dir d (mail_details mail raw sender) (length raw) recipients
            s after x messages r sound in
        weaken-Post (λ _. Steady x) (λ _. Delivers messages) Never (SoundError s) retry_pending x w
          (retry_pending-Steady x w saved.valid)
          (λ _ u h.
            Delivered-Sound mail cfg msg_dir d (mail_details mail raw sender) (length raw)
              recipients s x u messages saved (h.0, h.1))
          (λ e u h. absurd h)

    pub committed-Post :
        (w : Schedule)
        → IsValid s
        → 0 < length recipients
        → Post
            (Commits mail cfg msg_dir d (mail_details mail raw sender) (length raw) recipients s)
            (SoundError s)
            (on_failure
              (in_tx
                (save_tx mail cfg msg_dir d recipients (mail_details mail raw sender) (length raw)))
              (discard_file (final_path mail cfg msg_dir d) (length raw))
              s
              w)
    committed-Post w v some_one =
        let body =
          save_tx mail cfg msg_dir d recipients (mail_details mail raw sender) (length raw) in
        on_failure-Post s _ (discard_file (final_path mail cfg msg_dir d) (length raw))
          (λ t w₁ valid. discard_file-Sound (final_path mail cfg msg_dir d) (length raw) t w₁ valid)
          (in_tx body) s w
          (weaken-Post _ _ (λ e t. IsReal e × (t ≡ s)) (SoundError s) (in_tx body) s w
            (in_tx-Post
              (Committed mail cfg msg_dir d (mail_details mail raw sender) (length raw) recipients
                s)
              body s w
              λ w₁.
                save_tx-Commits mail cfg msg_dir d (mail_details mail raw sender) (length raw)
                  recipients s w₁ v.tables some_one)
            (λ a t h. h)
            (λ e t (real, same). (real, subst (Sound s) (sym same) (v, SameMail-refl s))))

    commit-Delivers :
        (w : Schedule)
        → IsValid s
        → s.storage_fault ≡ false
        → 0 < length recipients
        → Post Delivers (SoundError s) (commit mail cfg msg_dir d recipients sender raw s w)
    unfolding commit
    commit-Delivers w v calm some_one =
        bind-Post
          (Commits mail cfg msg_dir d (mail_details mail raw sender) (length raw) recipients s)
          (SoundError s) (SoundError s) Delivers
          (on_failure
            (in_tx
              (save_tx mail cfg msg_dir d recipients (mail_details mail raw sender) (length raw)))
            (discard_file (final_path mail cfg msg_dir d) (length raw)))
          _ s w (committed-Post w v some_one) (λ e t h. h)
          λ result t w₁ (c, only).
            bind-Post (λ _. Delivers result.0) (SoundError s) (SoundError s) Delivers
              (settle mail cfg msg_dir d recipients (length raw) result.1) _ t w₁
              (settle-Post result.0 result.1 t w₁ (
                counted_in-Delivered mail cfg msg_dir d (mail_details mail raw sender) (length raw)
                  recipients s result.0 result.1 t v calm c only))
              (λ e u h. h) λ _ u w₂ saved. saved

  module _ (s t : Store) (recipients : List Bytes) (sender raw : Bytes) (m : M (List Message))
      (w : Schedule) where
    -- A delivery to a store with the same mail.
    Delivers-before :
        Steady s t
        → Post (Delivers t recipients sender raw) (SoundError t) (m t w)
        → Post (Delivers s recipients sender raw) (SoundError s) (m t w)
    Delivers-before steady post =
        weaken-Post (Delivers t recipients sender raw) (Delivers s recipients sender raw)
          (SoundError t) (SoundError s) m t w post
          (λ messages u r.
            Delivered-before mail cfg msg_dir d (mail_details mail raw sender) (length raw)
              recipients s t u messages steady.1 r)
          (λ e u (real, sound). (real, Sound-trans s t u (steady.0, steady.1) sound))

  deliver-Delivers :
      (s : Store) (recipients : List Bytes) (sender raw : Bytes) (w : Schedule)
      → IsValid s
      → s.storage_fault ≡ false
      → 0 < length recipients
      → Post
          (Delivers s recipients sender raw)
          (SoundError s)
          (deliver mail cfg msg_dir d recipients sender raw s w)
  unfolding deliver
  deliver-Delivers s recipients sender raw w v calm some_one =
      bind-Post (λ _. OnlyFiles s) (SoundError s) (OnlyFilesError s)
        (Delivers s recipients sender raw) (write_temp mail cfg msg_dir d raw) _ s w
        (write_temp-OnlyFiles mail cfg msg_dir d raw s w)
        (λ e t (real, only). let h = OnlyFiles-Steady s t v only in (real, (h.0, h.1)))
        λ _ t w₁ only.
          let h = OnlyFiles-Steady s t v only in
          Delivers-before s t recipients sender raw
            (publish mail cfg msg_dir d raw >> commit mail cfg msg_dir d recipients sender raw) w₁ h
            (bind-Post (λ _. Steady t) (SoundError t) (SoundError t)
              (Delivers t recipients sender raw) (publish mail cfg msg_dir d raw)
              (λ _. commit mail cfg msg_dir d recipients sender raw) t w₁
              (publish-Steady mail cfg msg_dir d raw t w₁ h.0) (λ e u k. k)
              λ _ u w₂ k.
                Delivers-before t u recipients sender raw
                  (commit mail cfg msg_dir d recipients sender raw) w₂ k
                  (commit-Delivers u recipients sender raw w₂ k.0 (k.2 ∙ h.2 ∙ calm) some_one))

  pub is_empty-false : (rs : List Bytes) → not (is_empty rs) ≡ true → 0 < length rs
  is_empty-false [] h = cc
  is_empty-false (r ∷ rs) h = omega arith

  pub save-Delivers :
      (s : Store) (recipients : List Bytes) (sender raw : Bytes) (w : Schedule)
      → IsValid s
      → Post
          (Delivers s (dedupe recipients) sender raw)
          (SoundError s)
          (save mail cfg msg_dir d recipients sender raw s w)
  unfolding save
  save-Delivers s recipients sender raw w v =
      let Q = Delivers s (dedupe recipients) sender raw in
      let refused : Sound s s = (v, SameMail-refl s) in
      guard-Post Q (SoundError s) (not (is_empty (dedupe recipients))) no_recipients _ s w
        (λ _. (tt, refused))
        λ some_one.
          guard-Post Q (SoundError s) (leb (length raw) cfg.max_message_bytes) message_too_large _ s
            w (λ _. (tt, refused))
            λ _.
              guard-Post Q (SoundError s) (leb (length raw) cfg.max_storage_bytes) storage_too_small
                _ s w (λ _. (tt, refused))
                λ _.
                  bind-Post (Admitted mail cfg msg_dir d s) (SoundError s) (SoundError s) Q
                    (admit mail cfg msg_dir d (length raw)) _ s w
                    (admit-Admitted mail cfg msg_dir d (length raw) s w v) (λ e t h. h)
                    λ _ t w₁ (steady, calm).
                      attempt-Post Q (SoundError s) _ t w₁ (tt, (steady.0, steady.1))
                        λ w₂.
                          let t₁ : Store = record t {
                            files = write_file (temp_path mail cfg msg_dir d) [] t.files;
                          } in
                          let steady₁ : Steady t t₁ = OnlyFiles-Steady t t₁ steady.0 refl in
                          deferred-Post s Q
                            (λ messages x u r sound.
                              Delivered-Sound mail cfg msg_dir d (mail_details mail raw sender)
                                (length raw) (dedupe recipients) s x u messages r sound)
                            (λ messages x r. r.valid) (remove_temp mail cfg msg_dir d)
                            (λ x w₃ valid. remove_temp-Sound mail cfg msg_dir d x w₃ valid)
                            (deliver mail cfg msg_dir d (dedupe recipients) sender raw) t₁ w₂
                            (Delivers-before s t₁ (dedupe recipients) sender raw
                              (deliver mail cfg msg_dir d (dedupe recipients) sender raw) w₂
                              (Steady-trans s t t₁ steady steady₁)
                              (deliver-Delivers t₁ (dedupe recipients) sender raw w₂ steady₁.0
                                (steady₁.2 ∙ steady.2 ∙ calm)
                                (is_empty-false (dedupe recipients) some_one)))
