-- ===== src/Store/Save/Filed.antt =====
-- The file of a delivery: what the calls of the file system did before the transaction of Save.
use tmpmail_fyi.Common.{
  length, Bytes, eq_bytes_refl, ℕ, zero, suc, ◌≡◌, refl, sym, ap, subst, ◌∙◌, Bool, true, false,
  some, List, [], ◌∷◌,
}
use tmpmail_fyi.Config.{Config}
use tmpmail_fyi.Store.State.{
  File, Store, Error, Schedule, Outcome, M, ◌>>=◌, ◌>>◌, pure, fail, guard, succeeds, attempt, try,
  done, failed,
}
use tmpmail_fyi.Store.Tables.{find_file, delete_file, write_file}
use tmpmail_fyi.Store.Pending.{discard_file}
use tmpmail_fyi.Store.Pending.Drain.{OnlyFiles}
use tmpmail_fyi.Store.Save.{
  MailParser, Draws, deferred, on_failure, after_close, final_path, temp_path, write_temp, publish,
}

-- The next n calls of a schedule succeed, and the other schedule is what is left.
abbrev pub CallsSucceed : ℕ → Schedule → Schedule → Type 0
CallsSucceed zero w v = v ≡ w
CallsSucceed (suc n) [] v = v ≡ []
CallsSucceed (suc n) (true ∷ w) v = CallsSucceed n w v
CallsSucceed (suc n) (false ∷ w) v = ⊥

pub bind-done :
    {A B : Type 0} (m : M A) (f : A → M B) (s : Store) (w : Schedule) (b : B) (t : Store)
    (v : Schedule)
    → (m >>= f) s w ≡ done b t v
    → (a : A) × (u : Store) × (x : Schedule) × (m s w ≡ done a u x) × (f a u x ≡ done b t v)
bind-done {A} {B} m f s w b t v e = by_outcome (m s w) refl e
  where
    by_outcome :
        (o : Outcome A)
        → m s w ≡ o
        → (elim o [ done a u x ↦ f a u x | failed e u x ↦ failed e u x ]) ≡ done b t v
        → (a : A) × (u : Store) × (x : Schedule) × (m s w ≡ done a u x) × (f a u x ≡ done b t v)
    by_outcome (done a u x) o e = (a, u, x, o, e)
    by_outcome (failed x u y) o e = cc

pub guard-done :
    {A : Type 0} (b : Bool) (x : Error) (k : M A) (s : Store) (w : Schedule) (a : A) (t : Store)
    (v : Schedule)
    → (guard b x >> k) s w ≡ done a t v
    → k s w ≡ done a t v
guard-done true x k s w a t v e = e
guard-done false x k s w a t v e = cc

pub guard-true :
    {A : Type 0} (b : Bool) (x : Error) (k : M A) (s : Store) (w : Schedule) (a : A) (t : Store)
    (v : Schedule)
    → (guard b x >> k) s w ≡ done a t v
    → b ≡ true
guard-true true x k s w a t v e = refl
guard-true false x k s w a t v e = cc

pub attempt-done :
    {A : Type 0} (k : M A) (s : Store) (w : Schedule) (a : A) (t : Store) (v : Schedule)
    → (attempt >> k) s w ≡ done a t v
    → (x : Schedule) × CallsSucceed 1 w x × (k s x ≡ done a t v)
unfolding attempt succeeds
attempt-done k s [] a t v e = ([], refl, e)
attempt-done k s (true ∷ w) a t v e = (w, refl, e)
attempt-done k s (false ∷ w) a t v e = cc

pub deferred-done :
    {A : Type 0} (body : M A) (last : M (Unit {0})) (s : Store) (w : Schedule) (a : A) (t : Store)
    (v : Schedule)
    → deferred body last s w ≡ done a t v
    → (u : Store) × (x : Schedule) × (y : Schedule) × (body s w ≡ done a u x)
      × (last u x ≡ done tt t y)
unfolding deferred
deferred-done {A} body last s w a t v e = by_outcome (body s w) refl e
  where
    by_outcome :
        (o : Outcome A)
        → body s w ≡ o
        → (elim o [ done a t v ↦ (last >> pure a) t v | failed e t v ↦ (last >> fail e) t v ])
          ≡ done a t v
        → (u : Store) × (x : Schedule) × (y : Schedule) × (body s w ≡ done a u x)
          × (last u x ≡ done tt t y)
    by_outcome (done b u x) o e =
        let (c, u', y, ended, same) = bind-done last (λ _. pure b) u x a t v e in
        let value : b ≡ a = cc in
        let store : u' ≡ t = cc in
        (u, x, y, o ∙ ap (λ b. done b u x) value, ended ∙ ap (λ t. done tt t y) store)
    by_outcome (failed z u x) o e =
        let (c, u', y, ended, same) = bind-done last (λ _. fail z) u x a t v e in cc

on_failure-done :
    {A : Type 0} (body : M A) (handler : M (Unit {0})) (s : Store) (w : Schedule) (a : A)
    (t : Store) (v : Schedule)
    → on_failure body handler s w ≡ done a t v
    → body s w ≡ done a t v
unfolding on_failure
on_failure-done {A} body handler s w a t v e = by_outcome (body s w) refl e
  where
    by_outcome :
        (o : Outcome A)
        → body s w ≡ o
        → (elim o [ done a t v ↦ done a t v | failed e t v ↦ (handler >> fail e) t v ]) ≡ done a t v
        → body s w ≡ done a t v
    by_outcome (done b u x) o e = o ∙ e
    by_outcome (failed z u x) o e =
        let (c, u', y, ended, same) = bind-done handler (λ _. fail z) u x a t v e in cc

last_attempt-done :
    (s : Store) (w : Schedule) (t : Store) (v : Schedule)
    → attempt s w ≡ done tt t v
    → CallsSucceed 1 w v × (t ≡ s)
unfolding attempt succeeds
last_attempt-done s [] t v e = (cc, cc)
last_attempt-done s (true ∷ w) t v e = (cc, cc)
last_attempt-done s (false ∷ w) t v e = cc

find_file-write_file :
    (path content : Bytes) (files : List File)
    → find_file path (write_file path content files) ≡ some content
unfolding find_file write_file
find_file-write_file path content files = rw (eq_bytes_refl path) refl

module _ (mail : MailParser) (cfg : Config) (msg_dir : Bytes) (d : Draws) where
  -- If writing the temporary file succeeds, its four calls did: Write, Chmod, Sync and Close.
  pub write_temp-done :
      (raw : Bytes) (s : Store) (w : Schedule) (t : Store) (v : Schedule)
      → write_temp mail cfg msg_dir d raw s w ≡ done tt t v
      → CallsSucceed 4 w v
  unfolding write_temp succeeds attempt try after_close
  write_temp-done raw s [] t v e = cc
  write_temp-done raw s (false ∷ []) t v e = cc
  write_temp-done raw s (false ∷ b ∷ w) t v e = cc
  write_temp-done raw s (true ∷ []) t v e = cc
  write_temp-done raw s (true ∷ false ∷ []) t v e = cc
  write_temp-done raw s (true ∷ false ∷ b ∷ w) t v e = cc
  write_temp-done raw s (true ∷ true ∷ []) t v e = cc
  write_temp-done raw s (true ∷ true ∷ false ∷ []) t v e = cc
  write_temp-done raw s (true ∷ true ∷ false ∷ b ∷ w) t v e = cc
  write_temp-done raw s (true ∷ true ∷ true ∷ []) t v e = cc
  write_temp-done raw s (true ∷ true ∷ true ∷ false ∷ w) t v e = cc
  write_temp-done raw s (true ∷ true ∷ true ∷ true ∷ w) t v e = cc

  -- If publishing does, the rename and the sync of the directory did, and the file is in place.
  pub publish-done :
      (raw : Bytes) (s : Store) (w : Schedule) (t : Store) (v : Schedule)
      → publish mail cfg msg_dir d raw s w ≡ done tt t v
      → CallsSucceed 2 w v
        × (find_file (final_path mail cfg msg_dir d) t.files ≡ some raw)
        × OnlyFiles s t
  unfolding publish
  publish-done raw s w t v e =
      let (x, renamed, rest) = attempt-done _ s w tt t v e in
      let path = final_path mail cfg msg_dir d in
      let files = write_file path raw (delete_file (temp_path mail cfg msg_dir d) s.files) in
      let u : Store = record s { files = files } in
      let (synced, same) =
        last_attempt-done u x t v
          (on_failure-done attempt (discard_file path (length raw)) u x tt t v rest) in
      (
        two_calls w x v renamed synced,
        subst (λ t. find_file path t.files ≡ some raw) (sym same)
            (find_file-write_file path raw (delete_file (temp_path mail cfg msg_dir d) s.files)),
        subst (λ t. OnlyFiles s t) (sym same) refl,
      )
    where
      two_calls : (w x v : Schedule) → CallsSucceed 1 w x → CallsSucceed 1 x v → CallsSucceed 2 w v
      two_calls [] [] [] h k = refl
      two_calls [] [] (b ∷ v) h k = cc
      two_calls [] (b ∷ x) v h k = cc
      two_calls (false ∷ w) x v h k = absurd h
      two_calls (true ∷ w) x v h k = subst (λ x. CallsSucceed 1 x v) h k
