-- ===== src/Store/Save/Readable.antt =====
-- The mail file after a call of Save that succeeds.
use tmpmail_fyi.Common.{
  ltb, leb, if◌then◌else◌, Bool-cases, length, any, Bytes, eq_bytes, ◌+ℤ◌, ◌-ℤ◌, ltb_ℤ, pos, ℕ, ◌+◌,
  ◌≡◌, subst, inl, inr, Bool, true, false, not, ◌||◌, Option, none, some, List, [], ◌∷◌, arith,
}
use tmpmail_fyi.Config.{Config}
use tmpmail_fyi.Store.State.{
  Blob, Store, CleanupStats, Error, Schedule, Outcome, pure, recovery_required, above_limit,
  pending_exhausted, done,
}
use tmpmail_fyi.Store.Tables.{find_blob, is_pending, pending_bytes, find_file}
use tmpmail_fyi.Store.Tables.Queue.{}
use tmpmail_fyi.Store.Post.{
  Post, bind-Post, attempt-Post, succeeds-Post, guard-Post, if-Post, last_guard-Post,
}
use tmpmail_fyi.Store.Valid.{}
use tmpmail_fyi.Store.Pending.{remove_file, retry_pending}
use tmpmail_fyi.Store.Pending.Drain.{Never}
use tmpmail_fyi.Store.Pending.Keeps.{}
use tmpmail_fyi.Store.Pending.Guarded.{
  Guarded, retry_pending-Guarded, remove_other-Guarded, discard_other-Guarded,
}
use tmpmail_fyi.Store.Evict.Bounds.{}
use tmpmail_fyi.Store.Save.{
  MailParser, Draws, final_path, temp_path, admit, discard_found, discard_temp, remove_temp, settle,
}
use tmpmail_fyi.Store.Save.Insert.{}
use tmpmail_fyi.Store.Save.Delivery.{}
use tmpmail_fyi.Store.Save.Deferred.{}
use tmpmail_fyi.Store.Save.Files.{}
use tmpmail_fyi.Store.Save.Settled.{}
use tmpmail_fyi.Store.Save.Filed.{}
use tmpmail_fyi.Store.Save.Run.{}

pub from_done :
    {A : Type 0} (Q : A → Store → Type 0) (E : Error → Store → Type 0) (o : Outcome A) (a : A)
    (t : Store) (v : Schedule)
    → o ≡ done a t v
    → Post Q E o
    → Q a t
from_done Q E o a t v e h = subst (Post Q E) e h

pub no_path :
    (path : Bytes) (blobs : List Blob) (k : Bytes) (b : Blob)
    → any (λ b. eq_bytes b.path path) blobs ≡ false
    → find_blob k blobs ≡ some b
    → eq_bytes b.path path ≡ false
unfolding find_blob
no_path path [] k b h e = cc
no_path path (x ∷ blobs) k b h e = elim (Bool-cases (eq_bytes x.id k)) [
  | inl f ↦ let same : x ≡ b = ground (arith, f) in rw (← same) (ground (arith, h))
  | inr f ↦ no_path path blobs k b (ground (arith, h)) (rw f at e)
]

module _ (mail : MailParser) (cfg : Config) (msg_dir : Bytes) (d : Draws) where
  -- The path of the mail file was in use before, or is that of the temporary file.
  abbrev pub is_taken : Store → Bool
  is_taken s =
      eq_bytes (temp_path mail cfg msg_dir d) (final_path mail cfg msg_dir d)
      || (is_pending (final_path mail cfg msg_dir d) s.db.pending
          || any (λ b. eq_bytes b.path (final_path mail cfg msg_dir d)) s.db.blobs)

  module _ (content : Option Bytes)
      (apart : eq_bytes (temp_path mail cfg msg_dir d) (final_path mail cfg msg_dir d)
        ≡ false) where
    abbrev HoldsFile : Store → Type 0
    HoldsFile t = Guarded (final_path mail cfg msg_dir d) content t

    pub admit-Guarded :
        (size : ℕ) (s : Store) (w : Schedule)
        → HoldsFile s
        → Post (λ _. HoldsFile) (λ e t. Unit) (admit mail cfg msg_dir d size s w)
    unfolding admit
    admit-Guarded size s w g =
        guard-Post (λ _. HoldsFile) (λ e t. Unit) (not s.storage_fault) recovery_required _ s w
          (λ _. tt)
          λ calm.
            bind-Post (λ _. HoldsFile) (λ e t. Unit) Never (λ _. HoldsFile) retry_pending _ s w
              (retry_pending-Guarded (final_path mail cfg msg_dir d) content s w g)
              (λ e t h. absurd h)
              λ _ t w₁ h.
                guard-Post (λ _. HoldsFile) (λ e t. Unit)
                  (not (ltb_ℤ (pos cfg.max_storage_bytes) t.stored_bytes)) above_limit _ t w₁
                  (λ _. tt)
                  λ _.
                    attempt-Post (λ _. HoldsFile) (λ e t. Unit) _ t w₁ tt
                      λ w₂.
                        last_guard-Post (λ _. HoldsFile) (λ e t. Unit)
                          (leb (pending_bytes t.db.pending + size) cfg.max_storage_bytes)
                          pending_exhausted t w₂ (λ _. tt) λ _. h

    pub settle-Guarded :
        (recipients : List Bytes) (size : ℕ) (stats : CleanupStats) (s : Store) (w : Schedule)
        → HoldsFile s
        → Post (λ _. HoldsFile) Never (settle mail cfg msg_dir d recipients size stats s w)
    unfolding settle
    settle-Guarded recipients size stats s w g =
        let x : Store = record s {
          stored_bytes = s.stored_bytes +ℤ pos size;
          stored_messages =
              s.stored_messages
              +ℤ (pos (length recipients) -ℤ pos stats.evicted -ℤ pos stats.expired);
        } in
        let cleaned = ltb 0 stats.evicted || ltb 0 stats.expired in
        retry_pending-Guarded (final_path mail cfg msg_dir d) content
          (if cleaned then record x { last_cleanup = some d.settled } else x) w
          (marked cleaned x (record { ordered = g.ordered; free = g.free; file = g.file }))
      where
        marked :
            (b : Bool) (x : Store)
            → HoldsFile x
            → HoldsFile (if b then record x { last_cleanup = some d.settled } else x)
        marked true x g = record { ordered = g.ordered; free = g.free; file = g.file }
        marked false x g = g

    discard_found-Guarded :
        (readable : Bool) (o : Option Bytes) (s : Store) (w : Schedule)
        → HoldsFile s
        → Post (λ _. HoldsFile) Never (discard_found mail cfg msg_dir d readable o s w)
    unfolding discard_found
    discard_found-Guarded readable none s w g = g
    discard_found-Guarded true (some x) s w g =
        discard_other-Guarded (final_path mail cfg msg_dir d) content (temp_path mail cfg msg_dir d)
          (length x) apart s w g
    discard_found-Guarded false (some x) s w g = g

    pub remove_temp-Guarded :
        (s : Store) (w : Schedule)
        → HoldsFile s
        → Post (λ _. HoldsFile) Never (remove_temp mail cfg msg_dir d s w)
    unfolding remove_temp discard_temp
    remove_temp-Guarded s w g =
        bind-Post (λ _. HoldsFile) Never Never (λ _. HoldsFile)
          (remove_file (temp_path mail cfg msg_dir d)) _ s w
          (remove_other-Guarded (final_path mail cfg msg_dir d) content
            (temp_path mail cfg msg_dir d) 0 apart s w g)
          (λ e t h. h)
          λ gone t w₁ h.
            if-Post (λ _. HoldsFile) Never gone (pure tt) (discard_temp mail cfg msg_dir d) t w₁
              (λ _. h)
              (λ _.
                succeeds-Post (λ _. HoldsFile) Never _ t w₁
                  λ readable w₂.
                    discard_found-Guarded readable
                      (find_file (temp_path mail cfg msg_dir d) t.files) t w₂ h)
