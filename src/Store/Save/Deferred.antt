-- ===== src/Store/Save/Deferred.antt =====
-- The deferred call and the failure handler of Save.
use tmpmail_fyi.Common.{refl}
use tmpmail_fyi.Store.State.{
  Store, Error, IsReal, Schedule, Outcome, M, ◌>>◌, pure, fail, done, failed,
}
use tmpmail_fyi.Store.Post.{Post, bind-Post}
use tmpmail_fyi.Store.Valid.{IsValid}
use tmpmail_fyi.Store.Pending.Drain.{Never}
use tmpmail_fyi.Store.Pending.Keeps.{Sound, Sound-trans, Steady, OnlyFiles-Steady}
use tmpmail_fyi.Store.Save.{deferred, on_failure}

-- A failure that left the mail alone, for a reason of the program.
abbrev pub SoundError : Store → Error → Store → Type 0
SoundError s e t = IsReal e × Sound s t

pub Steady-refl : (s : Store) → IsValid s → Steady s s
Steady-refl s v = OnlyFiles-Steady s s v refl

-- What runs at the end of a function whatever its outcome.
module _ {A : Type 0} (s : Store) (Q : A → Store → Type 0)
    (stable : (a : A) (t u : Store) → Q a t → Sound t u → Q a u)
    (valid : (a : A) (t : Store) → Q a t → IsValid t) (last : M (Unit {0}))
    (sound : (t : Store) (w : Schedule) → IsValid t → Post (λ _. Sound t) Never (last t w)) where
  deferred_outcome :
      (o : Outcome A)
      → Post Q (SoundError s) o
      → Post Q
          (SoundError s)
          (elim o [ done a t v ↦ (last >> pure a) t v | failed e t v ↦ (last >> fail e) t v ])
  deferred_outcome (done a t v) q =
      bind-Post (λ _. Sound t) (SoundError s) Never Q last _ t v (sound t v (valid a t q))
        (λ e u h. absurd h) λ _ u v₁ h. stable a t u q h
  deferred_outcome (failed e t v) (real, q) =
      bind-Post (λ _. Sound t) (SoundError s) Never Q last _ t v (sound t v q.0) (λ e u h. absurd h)
        λ _ u v₁ h. (real, Sound-trans s t u q h)

  pub deferred-Post :
      (body : M A) (t : Store) (w : Schedule)
      → Post Q (SoundError s) (body t w)
      → Post Q (SoundError s) (deferred body last t w)
  unfolding deferred
  deferred-Post body t w = deferred_outcome (body t w)

module _ {A : Type 0} (s : Store) (Q : A → Store → Type 0) (handler : M (Unit {0}))
    (sound : (t : Store) (w : Schedule) → IsValid t → Post (λ _. Sound t) Never (handler t w)) where
  on_failure_outcome :
      (o : Outcome A)
      → Post Q (SoundError s) o
      → Post Q
          (SoundError s)
          (elim o [ done a t v ↦ done a t v | failed e t v ↦ (handler >> fail e) t v ])
  on_failure_outcome (done a t v) q = q
  on_failure_outcome (failed e t v) (real, q) =
      bind-Post (λ _. Sound t) (SoundError s) Never Q handler _ t v (sound t v q.0)
        (λ e u h. absurd h) λ _ u v₁ h. (real, Sound-trans s t u q h)

  pub on_failure-Post :
      (body : M A) (t : Store) (w : Schedule)
      → Post Q (SoundError s) (body t w)
      → Post Q (SoundError s) (on_failure body handler t w)
  unfolding on_failure
  on_failure-Post body t w = on_failure_outcome (body t w)
