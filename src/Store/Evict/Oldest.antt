-- ===== src/Store/Evict/Oldest.antt =====
-- Which row a round of evictTx removes.
use tmpmail_fyi.Common.{
  leb, Bool-cases, Option-cases, keep_if, All, Bytes, eq_bytes, eq_bytes_iff, ℕ, ◌≤◌, ◌≡◌, refl,
  sym, ap, subst, ◌∙◌, ◌⊎◌, inl, inr, Bool, true, false, ◌&&◌, Option, none, some, List, [], ◌∷◌,
  arith,
}
use tmpmail_fyi.Store.State.{Row, Store, Schedule, limit_exhausted}
use tmpmail_fyi.Store.Tables.{find_row, delete_row}
use tmpmail_fyi.Store.Tables.Rows.{UniqueRows}
use tmpmail_fyi.Store.Post.{Post, attempt-Post, or_fail-Post, step-Post}
use tmpmail_fyi.Store.Valid.{OnlyDbError}
use tmpmail_fyi.Store.Evict.{
  first_min, unprotected, oldest_expired, oldest_arrival, Choice, choose_expired, choose_arrival,
  or_arrival, choose,
}

abbrev pub Holds : Row → List Row → Type 0
Holds r [] = ⊥
Holds r (x ∷ rows) = (r ≡ x) ⊎ Holds r rows

pub find_row_of_Holds :
    (r : Row) (rows : List Row) → UniqueRows rows → Holds r rows → find_row r.id rows ≡ some r
unfolding find_row
find_row_of_Holds r [] u h = absurd h
find_row_of_Holds r (x ∷ rows) (absent, u) (inl same) =
    ground (arith, eq_bytes_iff x.id r.id, ap (λ (y : Row). y.id) same)
find_row_of_Holds r (x ∷ rows) (absent, u) (inr h) =
    ground (arith, find_row_of_Holds r rows u h, eq_bytes_iff x.id r.id)

Holds-of_keep_if :
    (p : Row → Bool) (r : Row) (rows : List Row)
    → Holds r (keep_if p rows)
    → Holds r rows × (p r ≡ true)
Holds-of_keep_if p r [] h = absurd h
Holds-of_keep_if p r (x ∷ rows) h = elim (Bool-cases (p x)) [
  | inl e ↦ elim (rw e at h) [
    | inl same ↦ (inl same, ap p same ∙ e)
    | inr deep ↦ let k = Holds-of_keep_if p r rows deep in (inr k.0, k.1)
  ]
  | inr e ↦ let k = Holds-of_keep_if p r rows (rw e at h) in (inr k.0, k.1)
]

All-keep_if_elim :
    (P : Row → Type 0) (p : Row → Bool) (rows : List Row)
    → All P (keep_if p rows)
    → All (λ r. p r ≡ true → P r) rows
All-keep_if_elim P p [] h = tt
All-keep_if_elim P p (x ∷ rows) h = elim (Bool-cases (p x)) [
  | inl e ↦ let k = rw e at h in (λ _. k.0, All-keep_if_elim P p rows k.1)
  | inr e ↦ (λ t. cc, All-keep_if_elim P p rows (rw e at h))
]

module _ (key : Row → ℕ) where
  first_min-Holds : (r : Row) (rows : List Row) → first_min key rows ≡ some r → Holds r rows
  unfolding first_min
  first_min-Holds r [] h = cc
  first_min-Holds r (x ∷ rows) h = elim (Option-cases (first_min key rows)) [
    | inl e ↦ inl (ground arith)
    | inr (q, e) ↦ elim (Bool-cases (leb (key x) (key q))) [
      | inl le ↦ inl (ground arith)
      | inr gt ↦ inr (first_min-Holds r rows (ground arith))
    ]
  ]

  first_min-none : (rows : List Row) → first_min key rows ≡ none → rows ≡ []
  unfolding first_min
  first_min-none [] h = refl
  first_min-none (x ∷ rows) h = ground arith

  All-le_mono :
      (a b : ℕ) (rows : List Row) → a ≤ b → All (λ q. b ≤ key q) rows → All (λ q. a ≤ key q) rows
  All-le_mono a b [] h k = tt
  All-le_mono a b (x ∷ rows) h (p, k) = (omega arith, All-le_mono a b rows h k)

  first_min-All-le :
      (r : Row) (rows : List Row) → first_min key rows ≡ some r → All (λ q. key r ≤ key q) rows
  unfolding first_min
  first_min-All-le r [] h = cc
  first_min-All-le r (x ∷ rows) h = elim (Option-cases (first_min key rows)) [
    | inl e ↦ ground (arith, first_min-none rows e)
    | inr (q, e) ↦ elim (Bool-cases (leb (key x) (key q))) [
      | inl le ↦
          let same : x ≡ r = ground arith in
          subst (λ y. All (λ q. key y ≤ key q) (x ∷ rows)) same
            (
              omega arith,
              All-le_mono (key x) (key q) rows (ground arith) (first_min-All-le q rows e),
            )
      | inr gt ↦
          let same : q ≡ r = ground arith in
          subst (λ y. All (λ q. key y ≤ key q) (x ∷ rows)) same
            (ground arith, first_min-All-le q rows e)
    ]
  ]

-- The row is there, belongs to another blob, and is oldest: the first to expire of those that have
-- expired, or, when none has, the first to arrive.
pub record IsOldest (before : ℕ) (protected : Bytes) (rows : List Row) (c : Choice) : Type 0 where
  pub present : Holds c.row rows
  pub other : eq_bytes c.row.blob_id protected ≡ false
  pub overdue : c.expired ≡ true → c.row.expires_at ≤ before
  pub first_to_expire :
      c.expired ≡ true
      → All
          (λ q.
            (leb q.expires_at before && unprotected protected q) ≡ true
            → c.row.expires_at ≤ q.expires_at)
          rows
  pub none_expired : c.expired ≡ false → oldest_expired before protected rows ≡ none
  pub first_to_arrive :
      c.expired ≡ false
      → All (λ q. unprotected protected q ≡ true → c.row.received_at ≤ q.received_at) rows

oldest_expired-IsOldest :
    (before : ℕ) (protected : Bytes) (rows : List Row) (r : Row)
    → oldest_expired before protected rows ≡ some r
    → IsOldest before protected rows (record { row = r; expired = true })
unfolding oldest_expired
oldest_expired-IsOldest before protected rows r h =
    let test : Row → Bool = λ q. leb q.expires_at before && unprotected protected q in
    let k =
      Holds-of_keep_if test r rows (first_min-Holds (λ q. q.expires_at) r (keep_if test rows) h) in
    record {
      present = k.0;
      other = ground (arith, k.1);
      overdue = λ _. ground (arith, k.1);
      first_to_expire = λ _.
          All-keep_if_elim (λ q. r.expires_at ≤ q.expires_at) test rows
            (first_min-All-le (λ q. q.expires_at) r (keep_if test rows) h);
      none_expired = λ e. cc;
      first_to_arrive = λ e. cc;
    }

oldest_arrival-IsOldest :
    (before : ℕ) (protected : Bytes) (rows : List Row) (r : Row)
    → oldest_expired before protected rows ≡ none
    → oldest_arrival protected rows ≡ some r
    → IsOldest before protected rows (record { row = r; expired = false })
unfolding oldest_arrival
oldest_arrival-IsOldest before protected rows r over h =
    let test : Row → Bool = unprotected protected in
    let k =
      Holds-of_keep_if test r rows (first_min-Holds (λ q. q.received_at) r (keep_if test rows) h) in
    record {
      present = k.0;
      other = ground (arith, k.1);
      overdue = λ e. cc;
      first_to_expire = λ e. cc;
      none_expired = λ _. over;
      first_to_arrive = λ _.
          All-keep_if_elim (λ q. r.received_at ≤ q.received_at) test rows
            (first_min-All-le (λ q. q.received_at) r (keep_if test rows) h);
    }

module _ (before : ℕ) (protected : Bytes) (s : Store) where
  abbrev Chosen : Choice → Store → Type 0
  Chosen c t = IsOldest before protected s.db.messages c × (t ≡ s)

  choose_expired-Post :
      (remain : Bool) (w : Schedule)
      → (remain ≡ false → oldest_expired before protected s.db.messages ≡ none)
      → Post
          (λ o t. (o ≡ oldest_expired before protected s.db.messages) × (t ≡ s))
          (OnlyDbError s)
          (choose_expired before protected remain s w)
  unfolding choose_expired
  choose_expired-Post true w over =
      attempt-Post _ (OnlyDbError s) _ s w (tt, refl) λ v. (refl, refl)
  choose_expired-Post false w over = (sym (over refl), refl)

  choose_arrival-Post :
      (w : Schedule)
      → oldest_expired before protected s.db.messages ≡ none
      → Post Chosen (OnlyDbError s) (choose_arrival protected s w)
  unfolding choose_arrival
  choose_arrival-Post w over =
      attempt-Post Chosen (OnlyDbError s) _ s w (tt, refl)
        λ v.
          or_fail-Post Chosen (OnlyDbError s) (oldest_arrival protected s.db.messages)
            limit_exhausted _ s v (λ _. (tt, refl))
            λ r h. (oldest_arrival-IsOldest before protected s.db.messages r over h, refl)

  choose_after :
      (o : Option Row) (w : Schedule)
      → o ≡ oldest_expired before protected s.db.messages
      → Post Chosen (OnlyDbError s) (or_arrival protected o s w)
  unfolding or_arrival
  choose_after none w same = choose_arrival-Post w (sym same)
  choose_after (some r) w same =
      (oldest_expired-IsOldest before protected s.db.messages r (sym same), refl)

  pub choose-Post :
      (remain : Bool) (w : Schedule)
      → (remain ≡ false → oldest_expired before protected s.db.messages ≡ none)
      → Post Chosen (OnlyDbError s) (choose before protected remain s w)
  unfolding choose
  choose-Post remain w over =
      step-Post s (λ o. o ≡ oldest_expired before protected s.db.messages) (OnlyDbError s) Chosen
        (choose_expired before protected remain) _ s w (choose_expired-Post remain w over)
        λ o v same. choose_after o v same

keep_if-delete_row :
    (p : Row → Bool) (id : Bytes) (rows : List Row)
    → keep_if p rows ≡ []
    → keep_if p (delete_row id rows) ≡ []
unfolding delete_row
keep_if-delete_row p id [] h = refl
keep_if-delete_row p id (x ∷ rows) h = ground (arith, keep_if-delete_row p id rows)

-- Once no row has expired, none has after a deletion.
pub oldest_expired-delete_row :
    (before : ℕ) (protected id : Bytes) (rows : List Row)
    → oldest_expired before protected rows ≡ none
    → oldest_expired before protected (delete_row id rows) ≡ none
unfolding oldest_expired
oldest_expired-delete_row before protected id rows h =
    let test : Row → Bool = λ q. leb q.expires_at before && unprotected protected q in
    rw (
      keep_if-delete_row test id rows (first_min-none (λ q. q.expires_at) (keep_if test rows) h),
      first_min,
    )
