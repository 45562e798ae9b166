-- ===== src/Store/Post.antt =====
-- Postconditions of a computation: what holds of the result and of the state when it ends, and of
-- the error and of the state when it fails, whatever calls fail on the way.
use tmpmail_fyi.Common.{
  if◌then◌else◌, ◌≡◌, refl, sym, ap, subst, Bool, true, false, Option, none, some, [], ◌∷◌,
}
use tmpmail_fyi.Store.State.{
  Store, Error, IsReal, Schedule, Outcome, M, ◌>>=◌, ◌>>◌, guard, or_fail, succeeds, attempt, Try,
  tried, try, rolled_back, in_tx, external, done, failed, good, bad,
}

module _ {ℓ} {A : Type ℓ} where
  abbrev pub Post {κ} : (A → Store → Type κ) → (Error → Store → Type κ) → Outcome A → Type κ
  Post Q E (done a t v) = Q a t
  Post Q E (failed e t v) = E e t

module _ {ℓ κ ι} {A : Type ℓ} {B : Type κ} where
  bind_outcome :
      (Q : A → Store → Type ι) (E F : Error → Store → Type ι) (R : B → Store → Type ι) (f : A → M B)
      (o : Outcome A)
      → Post Q F o
      → ((e : Error) (t : Store) → F e t → E e t)
      → ((a : A) (t : Store) (v : Schedule) → Q a t → Post R E (f a t v))
      → Post R E (elim o [ done a t v ↦ f a t v | failed e t v ↦ failed e t v ])
  bind_outcome Q E F R f (done a t v) q g k = k a t v q
  bind_outcome Q E F R f (failed e t v) q g k = g e t q

  -- A first part, its postcondition, and what follows.
  pub bind-Post :
      (Q : A → Store → Type ι) (E F : Error → Store → Type ι) (R : B → Store → Type ι) (m : M A)
      (f : A → M B) (s : Store) (w : Schedule)
      → Post Q F (m s w)
      → ((e : Error) (t : Store) → F e t → E e t)
      → ((a : A) (t : Store) (v : Schedule) → Q a t → Post R E (f a t v))
      → Post R E ((m >>= f) s w)
  bind-Post Q E F R m f s w = bind_outcome Q E F R f (m s w)

module _ {ℓ κ} {A : Type ℓ} where
  weaken_outcome :
      (Q R : A → Store → Type κ) (E F : Error → Store → Type κ) (o : Outcome A)
      → Post Q E o
      → ((a : A) (t : Store) → Q a t → R a t)
      → ((e : Error) (t : Store) → E e t → F e t)
      → Post R F o
  weaken_outcome Q R E F (done a t v) q f g = f a t q
  weaken_outcome Q R E F (failed e t v) q f g = g e t q

  pub weaken-Post :
      (Q R : A → Store → Type κ) (E F : Error → Store → Type κ) (m : M A) (s : Store) (w : Schedule)
      → Post Q E (m s w)
      → ((a : A) (t : Store) → Q a t → R a t)
      → ((e : Error) (t : Store) → E e t → F e t)
      → Post R F (m s w)
  weaken-Post Q R E F m s w = weaken_outcome Q R E F (m s w)

  -- A call changes nothing itself.
  pub attempt-Post :
      (R : A → Store → Type κ) (E : Error → Store → Type κ) (k : M A) (s : Store) (w : Schedule)
      → E external s
      → ((v : Schedule) → Post R E (k s v))
      → Post R E ((attempt >> k) s w)
  unfolding attempt succeeds
  attempt-Post R E k s [] e h = h []
  attempt-Post R E k s (true ∷ w) e h = h w
  attempt-Post R E k s (false ∷ w) e h = e

  pub succeeds-Post :
      (R : A → Store → Type κ) (E : Error → Store → Type κ) (f : Bool → M A) (s : Store)
      (w : Schedule)
      → ((b : Bool) (v : Schedule) → Post R E (f b s v))
      → Post R E ((succeeds >>= f) s w)
  unfolding succeeds
  succeeds-Post R E f s [] h = h true []
  succeeds-Post R E f s (b ∷ w) h = h b w

  pub guard-Post :
      (R : A → Store → Type κ) (E : Error → Store → Type κ) (b : Bool) (e : Error) (k : M A)
      (s : Store) (w : Schedule)
      → (b ≡ false → E e s)
      → (b ≡ true → Post R E (k s w))
      → Post R E ((guard b e >> k) s w)
  guard-Post R E true e k s w g h = h refl
  guard-Post R E false e k s w g h = g refl

  pub if-Post :
      (R : A → Store → Type κ) (E : Error → Store → Type κ) (b : Bool) (m n : M A) (s : Store)
      (w : Schedule)
      → (b ≡ true → Post R E (m s w))
      → (b ≡ false → Post R E (n s w))
      → Post R E ((if b then m else n) s w)
  if-Post R E true m n s w h k = h refl
  if-Post R E false m n s w h k = k refl

  pub or_fail-Post :
      {B : Type 0} (R : A → Store → Type κ) (E : Error → Store → Type κ) (o : Option B) (e : Error)
      (f : B → M A) (s : Store) (w : Schedule)
      → (o ≡ none → E e s)
      → ((b : B) → o ≡ some b → Post R E (f b s w))
      → Post R E ((or_fail o e >>= f) s w)
  or_fail-Post R E none e f s w g h = g refl
  or_fail-Post R E (some b) e f s w g h = h b refl

-- A first part whose final state on success is known, with a fact.
module _ {ℓ κ ι} {A : Type ℓ} {B : Type κ} where
  pub step-Post :
      (s' : Store) (P : A → Type ι) (E : Error → Store → Type ι) (R : B → Store → Type ι) (m : M A)
      (f : A → M B) (s : Store) (w : Schedule)
      → Post (λ a t. P a × (t ≡ s')) E (m s w)
      → ((a : A) (v : Schedule) → P a → Post R E (f a s' v))
      → Post R E ((m >>= f) s w)
  step-Post s' P E R m f s w q k =
      bind-Post (λ a t. P a × (t ≡ s')) E E R m f s w q (λ e t h. h)
        λ a t v (p, same). subst (λ t. Post R E (f a t v)) (sym same) (k a v p)

-- A transaction that fails leaves the store as it was.
module _ {A : Type 0} (Q : A → Store → Type 0) (body : M A) (s : Store) where
  rolled_back-Post :
      (o : Outcome A)
      → Post
          (λ a t. Q a t × (t ≡ record s { db = t.db }))
          (λ e t. IsReal e × (t ≡ record s { db = t.db }))
          o
      → Post
          (λ a t. Q a t × (t ≡ record s { db = t.db }))
          (λ e t. IsReal e × (t ≡ s))
          (rolled_back s.db o)
  unfolding rolled_back
  rolled_back-Post (done a t v) h = h
  rolled_back-Post (failed e t v) (real, only) =
      (real, ap (λ (x : Store). record x { db = s.db }) only)

  pub in_tx-Post :
      (w : Schedule)
      → ((v : Schedule)
          → Post
              (λ a t. Q a t × (t ≡ record s { db = t.db }))
              (λ e t. IsReal e × (t ≡ record s { db = t.db }))
              (body s v))
      → Post
          (λ a t. Q a t × (t ≡ record s { db = t.db }))
          (λ e t. IsReal e × (t ≡ s))
          (in_tx body s w)
  unfolding in_tx
  in_tx-Post w h =
      attempt-Post (λ a t. Q a t × (t ≡ record s { db = t.db })) (λ e t. IsReal e × (t ≡ s)) _ s w
        (tt, refl)
        λ v. rolled_back-Post _ (
          bind-Post (λ a t. Q a t × (t ≡ record s { db = t.db }))
            (λ e t. IsReal e × (t ≡ record s { db = t.db }))
            (λ e t. IsReal e × (t ≡ record s { db = t.db }))
            (λ a t. Q a t × (t ≡ record s { db = t.db })) body _ s v (h v) (λ e t k. k)
            λ a t v₁ q.
              attempt-Post (λ a t. Q a t × (t ≡ record s { db = t.db }))
                (λ e t. IsReal e × (t ≡ record s { db = t.db })) _ t v₁ (tt, q.1) λ v₂. q)

-- An error that is caught, and what follows in either case.
module _ {A B : Type 0} (Q : A → Store → Type 0) (E F : Error → Store → Type 0)
    (R : B → Store → Type 0) (f : Try A → M B) where
  tried_outcome :
      (o : Outcome A)
      → Post Q E o
      → ((a : A) (t : Store) (v : Schedule) → Q a t → Post R F (f (good a) t v))
      → ((e : Error) (t : Store) (v : Schedule) → E e t → Post R F (f (bad e) t v))
      → Post R F (elim (tried o) [ done a t v ↦ f a t v | failed e t v ↦ failed e t v ])
  unfolding tried
  tried_outcome (done a t v) q g b = g a t v q
  tried_outcome (failed e t v) q g b = b e t v q

  pub try-Post :
      (m : M A) (s : Store) (w : Schedule)
      → Post Q E (m s w)
      → ((a : A) (t : Store) (v : Schedule) → Q a t → Post R F (f (good a) t v))
      → ((e : Error) (t : Store) (v : Schedule) → E e t → Post R F (f (bad e) t v))
      → Post R F ((try m >>= f) s w)
  unfolding try
  try-Post m s w = tried_outcome (m s w)

pub last_guard-Post :
    (R : Unit {0} → Store → Type 0) (E : Error → Store → Type 0) (b : Bool) (e : Error) (s : Store)
    (w : Schedule)
    → (b ≡ false → E e s)
    → (b ≡ true → R tt s)
    → Post R E (guard b e s w)
last_guard-Post R E true e s w g h = h refl
last_guard-Post R E false e s w g h = g refl

pub last_attempt-Post :
    (R : Unit {0} → Store → Type 0) (E : Error → Store → Type 0) (s : Store) (w : Schedule)
    → E external s
    → R tt s
    → Post R E (attempt s w)
unfolding attempt succeeds
last_attempt-Post R E s [] e h = h
last_attempt-Post R E s (true ∷ w) e h = h
last_attempt-Post R E s (false ∷ w) e h = e
