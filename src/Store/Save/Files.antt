-- ===== src/Store/Save/Files.antt =====
-- The files that Save writes and removes, and its checks under the lock.
use tmpmail_fyi.Common.{
  leb, if◌then◌else◌, length, take, Bytes, ltb_ℤ, pos, ℕ, ◌+◌, ◌≡◌, refl, sym, subst, Bool, true,
  false, not, Option, none, some, arith,
}
use tmpmail_fyi.Config.{Config}
use tmpmail_fyi.Store.State.{
  Store, Error, IsReal, Schedule, ◌>>◌, pure, guard, attempt, Try, recovery_required, above_limit,
  pending_exhausted, external, good, bad,
}
use tmpmail_fyi.Store.Tables.{pending_bytes, find_file, delete_file, write_file}
use tmpmail_fyi.Store.Post.{
  Post, bind-Post, weaken-Post, attempt-Post, succeeds-Post, guard-Post, if-Post, step-Post,
  try-Post, last_guard-Post, last_attempt-Post,
}
use tmpmail_fyi.Store.Valid.{IsValid}
use tmpmail_fyi.Store.Pending.{remove_file, retry_pending, discard_file}
use tmpmail_fyi.Store.Pending.Drain.{OnlyFiles, Never, unlinked_file, remove_file-Post}
use tmpmail_fyi.Store.Pending.Keeps.{
  SameMail-refl, Sound, Sound-trans, Steady, retry_pending-Steady, discard_file-Sound,
  OnlyFiles-Steady,
}
use tmpmail_fyi.Store.Save.{
  MailParser, Draws, after_close, final_path, temp_path, admit, write_temp, publish, discard_found,
  discard_temp, remove_temp,
}
use tmpmail_fyi.Store.Save.Deferred.{SoundError, Steady-refl, on_failure-Post}

-- Only files changed, whether or not the write succeeded.
abbrev pub OnlyFilesError : Store → Error → Store → Type 0
OnlyFilesError s e t = IsReal e × OnlyFiles s t

abbrev RealTry : Try (Unit {0}) → Type 0
RealTry (good _) = Unit
RealTry (bad e) = IsReal e

after_close-Post :
    (closed : Bool) (written : Try (Unit {0})) (s t : Store) (w : Schedule)
    → OnlyFiles s t
    → RealTry written
    → Post (λ _. OnlyFiles s) (OnlyFilesError s) (after_close closed written t w)
unfolding after_close
after_close-Post closed (good a) s t w only real =
    last_guard-Post (λ _. OnlyFiles s) (OnlyFilesError s) closed external t w (λ _. (tt, only))
      (λ _. only)
after_close-Post closed (bad e) s t w only real = (real, only)

flushed-Post :
    (complete : Bool) (s : Store) (w : Schedule)
    → Post
        (λ _ t. t ≡ s)
        (λ e t. IsReal e × (t ≡ s))
        ((guard complete external >> attempt >> attempt) s w)
flushed-Post complete s w =
    step-Post s (λ _. Unit) (λ e t. IsReal e × (t ≡ s)) (λ _ t. t ≡ s)
      (guard complete external >> attempt) (λ _. attempt) s w
      (guard-Post (λ _ t. Unit × (t ≡ s)) (λ e t. IsReal e × (t ≡ s)) complete external attempt s w
        (λ _. (tt, refl))
        (λ _.
          last_attempt-Post (λ _ t. Unit × (t ≡ s)) (λ e t. IsReal e × (t ≡ s)) s w (tt, refl)
            (tt, refl)))
      λ _ v _. last_attempt-Post (λ _ t. t ≡ s) (λ e t. IsReal e × (t ≡ s)) s v (tt, refl) refl

module _ (mail : MailParser) (cfg : Config) (msg_dir : Bytes) (d : Draws) where
  discard_found-Sound :
      (readable : Bool) (found : Option Bytes) (s : Store) (w : Schedule)
      → IsValid s
      → Post (λ _. Sound s) Never (discard_found mail cfg msg_dir d readable found s w)
  unfolding discard_found
  discard_found-Sound readable none s w v = (v, SameMail-refl s)
  discard_found-Sound true (some content) s w v =
      discard_file-Sound (temp_path mail cfg msg_dir d) (length content) s w v
  discard_found-Sound false (some content) s w v = (v, SameMail-refl s)

  discard_temp-Sound :
      (s : Store) (w : Schedule)
      → IsValid s
      → Post (λ _. Sound s) Never (discard_temp mail cfg msg_dir d s w)
  unfolding discard_temp
  discard_temp-Sound s w v =
      succeeds-Post (λ _. Sound s) Never _ s w
        λ readable w₁.
          discard_found-Sound readable (find_file (temp_path mail cfg msg_dir d) s.files) s w₁ v

  unlinked_file-Steady :
      (gone : Bool) (path : Bytes) (s : Store) → IsValid s → Steady s (unlinked_file gone path s)
  unlinked_file-Steady true path s v = OnlyFiles-Steady s (unlinked_file true path s) v refl
  unlinked_file-Steady false path s v = Steady-refl s v

  pub remove_temp-Sound :
      (s : Store) (w : Schedule)
      → IsValid s
      → Post (λ _. Sound s) Never (remove_temp mail cfg msg_dir d s w)
  unfolding remove_temp
  remove_temp-Sound s w v =
      bind-Post (λ gone t. t ≡ unlinked_file gone (temp_path mail cfg msg_dir d) s) Never Never
        (λ _. Sound s) (remove_file (temp_path mail cfg msg_dir d)) _ s w
        (remove_file-Post (temp_path mail cfg msg_dir d) s w) (λ e t h. h)
        λ gone t w₁ same.
          let steady : Steady s t =
            subst (Steady s) (sym same)
              (unlinked_file-Steady gone (temp_path mail cfg msg_dir d) s v) in
          if-Post (λ _. Sound s) Never gone (pure tt) (discard_temp mail cfg msg_dir d) t w₁
            (λ _. (steady.0, steady.1))
            (λ _.
              weaken-Post (λ _. Sound t) (λ _. Sound s) Never Never
                (discard_temp mail cfg msg_dir d) t w₁ (discard_temp-Sound t w₁ steady.0)
                (λ a u h. Sound-trans s t u (steady.0, steady.1) h) (λ e u h. h))

  -- The checks under the lock let a delivery through only when no fault is raised.
  abbrev pub Admitted : Store → Unit {0} → Store → Type 0
  Admitted s _ t = Steady s t × (s.storage_fault ≡ false)

  pub admit-Admitted :
      (size : ℕ) (s : Store) (w : Schedule)
      → IsValid s
      → Post (Admitted s) (SoundError s) (admit mail cfg msg_dir d size s w)
  unfolding admit
  admit-Admitted size s w v =
      guard-Post (Admitted s) (SoundError s) (not s.storage_fault) recovery_required _ s w
        (λ _. (tt, (v, SameMail-refl s)))
        λ calm.
          bind-Post (λ _. Steady s) (SoundError s) Never (Admitted s) retry_pending _ s w
            (retry_pending-Steady s w v) (λ e t h. absurd h)
            λ _ t w₁ h.
              guard-Post (Admitted s) (SoundError s)
                (not (ltb_ℤ (pos cfg.max_storage_bytes) t.stored_bytes)) above_limit _ t w₁
                (λ _. (tt, (h.0, h.1)))
                λ _.
                  attempt-Post (Admitted s) (SoundError s) _ t w₁ (tt, (h.0, h.1))
                    λ w₂.
                      last_guard-Post (Admitted s) (SoundError s)
                        (leb (pending_bytes t.db.pending + size) cfg.max_storage_bytes)
                        pending_exhausted t w₂ (λ _. (tt, (h.0, h.1))) λ _. (h, ground arith)

  pub write_temp-OnlyFiles :
      (raw : Bytes) (s : Store) (w : Schedule)
      → Post (λ _. OnlyFiles s) (OnlyFilesError s) (write_temp mail cfg msg_dir d raw s w)
  unfolding write_temp
  write_temp-OnlyFiles raw s w =
      succeeds-Post (λ _. OnlyFiles s) (OnlyFilesError s) _ s w
        λ complete w₁.
          let s₁ : Store = record s {
            files =
                write_file (temp_path mail cfg msg_dir d)
                  (if complete then raw else take d.written raw) s.files;
          } in
          try-Post (λ _ t. t ≡ s₁) (λ e t. IsReal e × (t ≡ s₁)) (OnlyFilesError s)
            (λ _. OnlyFiles s) _ (guard complete external >> attempt >> attempt) s₁ w₁
            (flushed-Post complete s₁ w₁)
            (λ a t w₂ same.
              succeeds-Post (λ _. OnlyFiles s) (OnlyFilesError s) _ t w₂
                λ closed w₃.
                  after_close-Post closed (good a) s t w₃ (subst (OnlyFiles s) (sym same) refl) tt)
            (λ e t w₂ (real, same).
              succeeds-Post (λ _. OnlyFiles s) (OnlyFilesError s) _ t w₂
                λ closed w₃.
                  after_close-Post closed (bad e) s t w₃ (subst (OnlyFiles s) (sym same) refl) real)

  pub publish-Steady :
      (raw : Bytes) (s : Store) (w : Schedule)
      → IsValid s
      → Post (λ _. Steady s) (SoundError s) (publish mail cfg msg_dir d raw s w)
  unfolding publish
  publish-Steady raw s w v =
      attempt-Post (λ _. Steady s) (SoundError s) _ s w (tt, (v, SameMail-refl s))
        λ w₁.
          on_failure-Post s (λ _. Steady s)
            (discard_file (final_path mail cfg msg_dir d) (length raw))
            (λ t w₂ valid.
              discard_file-Sound (final_path mail cfg msg_dir d) (length raw) t w₂ valid)
            attempt (published raw s) w₁
            (last_attempt-Post (λ _. Steady s) (SoundError s) (published raw s) w₁
              (let h = OnlyFiles-Steady s (published raw s) v refl in (tt, (h.0, h.1)))
              (OnlyFiles-Steady s (published raw s) v refl))
    where
      published : Bytes → Store → Store
      published raw s = record s {
        files =
            write_file (final_path mail cfg msg_dir d) raw
              (delete_file (temp_path mail cfg msg_dir d) s.files);
      }
