-- ===== src/Analytics/Tables/Transaction.antt =====
-- The statements of a transaction, before its commit.
use tmpmail_fyi.Common.{◌≡◌, Bool, true, false, [], ◌∷◌}
use tmpmail_fyi.Analytics.State.{
  Analytics, Answers, Outcome, M, ◌>>=◌, answer, attempt, fails, answers, done, failed,
}

-- A part of the transaction leaves the state as it was, and ends with a result of which P holds,
-- or fails.
module _ (before : Analytics) where
  abbrev pub Leaves : {A : Type 0} → (A → Type 0) → Outcome A → Type 0
  Leaves P (done a t w) = (t ≡ before) × P a
  Leaves P (failed t w) = t ≡ before

  abbrev pub Keeping : {A : Type 0} → (A → Type 0) → M A → Type 0
  Keeping P m = (s : Analytics) (w : Answers) → s ≡ before → Leaves P (m s w)

  after-Keeping :
      {A B : Type 0} (P : A → Type 0) (R : B → Type 0) (f : A → M B) (o : Outcome A)
      → Leaves P o
      → ((a : A) → P a → Keeping R (f a))
      → Leaves R (elim o [ done a t v ↦ f a t v | failed t v ↦ failed t v ])
  after-Keeping P R f (done a t v) (same, h) k = k a h t v same
  after-Keeping P R f (failed t v) h k = h

  pub bind-Keeping :
      {A B : Type 0} (P : A → Type 0) (R : B → Type 0) (m : M A) (f : A → M B)
      → Keeping P m
      → ((a : A) → P a → Keeping R (f a))
      → Keeping R (m >>= f)
  bind-Keeping P R m f h k s w same = after-Keeping P R f (m s w) (h s w same) k

  pub attempt-Keeping : Keeping (λ _. Unit {0}) attempt
  unfolding attempt answer
  attempt-Keeping s [] same = (same, tt)
  attempt-Keeping s (fails ∷ w) same = same
  attempt-Keeping s (answers n ∷ w) same = (same, tt)

  pub elim-Keeping :
      {A : Type 0} (b : Bool) (P : Bool → A → Type 0) (m n : M A)
      → Keeping (P true) m
      → Keeping (P false) n
      → Keeping (P b) (elim b [ true ↦ m | false ↦ n ])
  elim-Keeping true P m n h k = h
  elim-Keeping false P m n h k = k
