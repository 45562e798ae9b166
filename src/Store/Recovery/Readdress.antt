-- ===== src/Store/Recovery/Readdress.antt =====
-- The rows before and after the recipients are put into canonical form.
use mathlib.Core.List.{append_assoc}
use tmpmail_fyi.Common.{
  Bool-cases, keep_if, All, Bytes, eq_bytes, eq_bytes→eq, eq_bytes_refl, eq_bytes_symm, ◌≡◌, refl,
  sym, ap, subst, ◌∙◌, inl, inr, true, false, List, [], ◌∷◌, ◌++◌, map, arith,
}
use tmpmail_fyi.Address.{normalize_recipient, contains_recipient}
use tmpmail_fyi.Address.Laws.{normalize_recipient_idem}
use tmpmail_fyi.Store.State.{Row, Store, Schedule}
use tmpmail_fyi.Store.Post.{Post, weaken-Post, attempt-Post}
use tmpmail_fyi.Store.Tables.{}
use tmpmail_fyi.Store.Tables.Rows.{}
use tmpmail_fyi.Store.Valid.{OnlyDb, OnlyDbError}
use tmpmail_fyi.Store.Pending.{}
use tmpmail_fyi.Store.Recovery.{
  distinct_recipients, is_stale, stale_recipients, rename_row, rename_all,
}

-- The same rows, up to the form of their recipients.
abbrev pub Readdressed : List Row → List Row → Type 0
Readdressed [] [] = Unit
Readdressed [] (q ∷ after) = ⊥
Readdressed (r ∷ rows) [] = ⊥
Readdressed (r ∷ rows) (q ∷ after) =
    (q ≡ record r { recipient = q.recipient })
    × (normalize_recipient q.recipient ≡ normalize_recipient r.recipient)
    × Readdressed rows after

abbrev pub IsCanonical : Row → Type 0
IsCanonical r = normalize_recipient r.recipient ≡ r.recipient

-- What the statements do to the rows.
unfoldable pub renamed : List Bytes → List Row → List Row
renamed [] rows = rows
renamed (recipient ∷ recipients) rows = renamed recipients (map (rename_row recipient) rows)

pub Readdressed-refl : (rows : List Row) → Readdressed rows rows
Readdressed-refl [] = tt
Readdressed-refl (r ∷ rows) = (refl, refl, Readdressed-refl rows)

Readdressed-trans :
    (xs ys zs : List Row) → Readdressed xs ys → Readdressed ys zs → Readdressed xs zs
Readdressed-trans [] [] [] h k = tt
Readdressed-trans [] [] (z ∷ zs) h k = k
Readdressed-trans [] (y ∷ ys) zs h k = absurd h
Readdressed-trans (x ∷ xs) [] zs h k = absurd h
Readdressed-trans (x ∷ xs) (y ∷ ys) [] h k = k
Readdressed-trans (x ∷ xs) (y ∷ ys) (z ∷ zs) (e, f, h) (e', f', k) = (
  e' ∙ ap (λ (r : Row). record r { recipient = z.recipient }) e,
  f' ∙ f,
  Readdressed-trans xs ys zs h k,
)

rename_row-same :
    (recipient : Bytes) (r : Row)
    → (rename_row recipient r ≡ record r { recipient = (rename_row recipient r).recipient })
      × (normalize_recipient (rename_row recipient r).recipient ≡ normalize_recipient r.recipient)
unfolding rename_row
rename_row-same recipient r = elim (Bool-cases (eq_bytes r.recipient recipient)) [
  | inl e ↦ rw (e, eq_bytes→eq r.recipient recipient e) (refl, normalize_recipient_idem recipient)
  | inr e ↦ rw e (refl, refl)
]

map-rename_row-Readdressed :
    (recipient : Bytes) (rows : List Row) → Readdressed rows (map (rename_row recipient) rows)
map-rename_row-Readdressed recipient [] = tt
map-rename_row-Readdressed recipient (r ∷ rows) =
    let same = rename_row-same recipient r in
    (same.0, same.1, map-rename_row-Readdressed recipient rows)

pub renamed-Readdressed : (xs : List Bytes) (rows : List Row) → Readdressed rows (renamed xs rows)
unfolding renamed
renamed-Readdressed [] rows = Readdressed-refl rows
renamed-Readdressed (x ∷ xs) rows =
    Readdressed-trans rows (map (rename_row x) rows) (renamed xs (map (rename_row x) rows))
      (map-rename_row-Readdressed x rows) (renamed-Readdressed xs (map (rename_row x) rows))

-- A row that is canonical or still to be renamed.
abbrev pub Settling : List Bytes → Row → Type 0
Settling xs r = (contains_recipient xs r.recipient ≡ false) → IsCanonical r

rename_row-Settling :
    (x : Bytes) (xs : List Bytes) (r : Row) → Settling (x ∷ xs) r → Settling xs (rename_row x r)
unfolding rename_row contains_recipient
rename_row-Settling x xs r h = elim (Bool-cases (eq_bytes r.recipient x)) [
  | inl e ↦ rw e (λ absent. normalize_recipient_idem x)
  | inr e ↦ rw e (λ absent. h (rw (eq_bytes_symm x r.recipient, e) absent))
]

settled : (rows : List Row) → All (Settling []) rows → All IsCanonical rows
unfolding contains_recipient
settled [] h = tt
settled (r ∷ rows) (p, h) = (p refl, settled rows h)

map-rename_row-Settling :
    (x : Bytes) (xs : List Bytes) (rows : List Row)
    → All (Settling (x ∷ xs)) rows
    → All (Settling xs) (map (rename_row x) rows)
map-rename_row-Settling x xs [] h = tt
map-rename_row-Settling x xs (r ∷ rows) (p, h) =
    (rename_row-Settling x xs r p, map-rename_row-Settling x xs rows h)

pub renamed-Canonical :
    (xs : List Bytes) (rows : List Row) → All (Settling xs) rows → All IsCanonical (renamed xs rows)
unfolding renamed
renamed-Canonical [] rows h = settled rows h
renamed-Canonical (x ∷ xs) rows h =
    renamed-Canonical xs (map (rename_row x) rows) (map-rename_row-Settling x xs rows h)

kept_head :
    (k : Bytes) (xs : List Bytes)
    → is_stale k ≡ true
    → contains_recipient (keep_if is_stale (k ∷ xs)) k ≡ true
unfolding contains_recipient
kept_head k xs stale = rw stale (rw (eq_bytes_refl k) refl)

fresh_head :
    (k : Bytes) (xs : List Bytes)
    → contains_recipient (keep_if is_stale (k ∷ xs)) k ≡ false
    → is_stale k ≡ false
fresh_head k xs g = elim (Bool-cases (is_stale k)) [
  | inl e ↦ absurd (true_ne_false (sym (kept_head k xs e) ∙ g))
  | inr e ↦ e
]
  where
    true_ne_false : true ≡ false → ⊥
    true_ne_false e = cc

-- The recipients that are not canonical are all among those to rename.
contains_recipient-keep_if :
    (xs : List Bytes) (k : Bytes)
    → contains_recipient xs k ≡ true
    → contains_recipient (keep_if is_stale xs) k ≡ false
    → is_stale k ≡ false
unfolding contains_recipient
contains_recipient-keep_if [] k h g = cc
contains_recipient-keep_if (x ∷ xs) k h g = elim (Bool-cases (eq_bytes x k)) [
  | inl e ↦
      fresh_head k xs (
        subst (λ y. contains_recipient (keep_if is_stale (y ∷ xs)) k ≡ false) (eq_bytes→eq x k e) g)
  | inr e ↦ contains_recipient-keep_if xs k (ground arith) (ground arith)
]

contains_recipient-distinct :
    (before rows : List Row) (r : Row)
    → contains_recipient (distinct_recipients (before ++ r ∷ rows)) r.recipient ≡ true
unfolding distinct_recipients contains_recipient
contains_recipient-distinct [] rows r = ground (arith, eq_bytes_refl r.recipient)
contains_recipient-distinct (q ∷ before) rows r =
    ground (arith, contains_recipient-distinct before rows r)

canonical_of_not_stale : (k : Bytes) → is_stale k ≡ false → normalize_recipient k ≡ k
canonical_of_not_stale k h = sym (eq_bytes→eq k (normalize_recipient k) (ground arith))

pub stale-Settling :
    (before rows : List Row) → All (Settling (stale_recipients (before ++ rows))) rows
unfolding stale_recipients
stale-Settling before [] = tt
stale-Settling before (r ∷ rows) = (
  λ absent. canonical_of_not_stale r.recipient (
      contains_recipient-keep_if (distinct_recipients (before ++ r ∷ rows)) r.recipient
        (contains_recipient-distinct before rows r) absent),
  subst (λ rs. All (Settling (stale_recipients rs)) rows) (append_assoc before (r ∷ []) rows)
      (stale-Settling (before ++ r ∷ []) rows),
)

-- The transaction.
abbrev pub DoneBy : List Bytes → Store → Unit {0} → Store → Type 0
DoneBy xs s _ t = (t.db ≡ record s.db { messages = renamed xs s.db.messages }) × OnlyDb s t

pub rename_all-DoneBy :
    (xs : List Bytes) (s : Store) (w : Schedule)
    → Post (DoneBy xs s) (OnlyDbError s) (rename_all xs s w)
unfolding rename_all renamed
rename_all-DoneBy [] s w = (refl, refl)
rename_all-DoneBy (x ∷ xs) s w =
    attempt-Post (DoneBy (x ∷ xs) s) (OnlyDbError s) _ s w (tt, refl)
      λ w₁.
        let s₁ : Store = record s {
          db = record s.db { messages = map (rename_row x) s.db.messages };
        } in
        weaken-Post (DoneBy xs s₁) (DoneBy (x ∷ xs) s) (OnlyDbError s₁) (OnlyDbError s)
          (rename_all xs) s₁ w₁ (rename_all-DoneBy xs s₁ w₁) (λ _ t h. h) (λ e t h. h)
