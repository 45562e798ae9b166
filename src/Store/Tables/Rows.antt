-- ===== src/Store/Tables/Rows.antt =====
-- The table messages: keys are unique, and the rows that hold a blob are counted.
use tmpmail_fyi.Common.{
  if◌then◌else◌, Bool-cases, length, Bytes, eq_bytes, eq_bytes_iff, ℕ, ◌+◌, ◌≡◌, refl, inl, inr,
  none, some, List, [], ◌∷◌, ◌++◌, arith,
}
use tmpmail_fyi.Store.State.{Row}
use tmpmail_fyi.Store.Tables.{find_row, delete_row}

abbrev pub UniqueRows : List Row → Type 0
UniqueRows [] = Unit {0}
UniqueRows (r ∷ rows) = (find_row r.id rows ≡ none) × UniqueRows rows

-- How many rows hold a blob.
unfoldable pub refs : Bytes → List Row → ℕ
refs k [] = 0
refs k (r ∷ rows) = (if eq_bytes r.blob_id k then 1 else 0) + refs k rows

pub delete_row_absent :
    (id : Bytes) (rows : List Row) → find_row id rows ≡ none → delete_row id rows ≡ rows
unfolding find_row delete_row
delete_row_absent id [] h = refl
delete_row_absent id (r ∷ rows) h = ground (arith, delete_row_absent id rows)

pub find_row-delete_row :
    (id key : Bytes) (rows : List Row)
    → find_row key (delete_row id rows) ≡ (if eq_bytes id key then none else find_row key rows)
unfolding find_row delete_row
find_row-delete_row id key [] = ground arith
find_row-delete_row id key (r ∷ rows) = ground (
  arith,
  find_row-delete_row id key rows,
  eq_bytes_iff r.id id,
  eq_bytes_iff r.id key,
  eq_bytes_iff id key,
)

pub delete_row-UniqueRows :
    (id : Bytes) (rows : List Row) → UniqueRows rows → UniqueRows (delete_row id rows)
unfolding delete_row
delete_row-UniqueRows id [] u = tt
delete_row-UniqueRows id (r ∷ rows) (absent, u) =
    ground (arith, delete_row-UniqueRows id rows u, find_row-delete_row id r.id rows)

pub refs-delete_row :
    (k id : Bytes) (row : Row) (rows : List Row)
    → UniqueRows rows
    → find_row id rows ≡ some row
    → refs k rows ≡ refs k (delete_row id rows) + (if eq_bytes row.blob_id k then 1 else 0)
unfolding find_row delete_row refs
refs-delete_row k id row [] u h = cc
refs-delete_row k id row (r ∷ rows) (absent, u) h = elim (Bool-cases (eq_bytes r.id id)) [
  | inl e ↦
      let same : r.id ≡ id = (eq_bytes_iff r.id id).0 e in
      let rest : find_row id rows ≡ none = rw (← same) absent in
      ground (arith, delete_row_absent id rows rest)
  | inr e ↦ ground (arith, refs-delete_row k id row rows u)
]

pub length-delete_row :
    (id : Bytes) (row : Row) (rows : List Row)
    → UniqueRows rows
    → find_row id rows ≡ some row
    → length rows ≡ length (delete_row id rows) + 1
unfolding find_row delete_row
length-delete_row id row [] u h = cc
length-delete_row id row (r ∷ rows) (absent, u) h = elim (Bool-cases (eq_bytes r.id id)) [
  | inl e ↦
      let same : r.id ≡ id = (eq_bytes_iff r.id id).0 e in
      let rest : find_row id rows ≡ none = rw (← same) absent in
      ground (arith, delete_row_absent id rows rest)
  | inr e ↦ ground (arith, length-delete_row id row rows u)
]

pub find_row-snoc :
    (key : Bytes) (row : Row) (rows : List Row)
    → find_row key (rows ++ row ∷ []) ≡ elim (find_row key rows) [
      | some r ↦ some r
      | none ↦ if eq_bytes row.id key then some row else none
    ]
unfolding find_row
find_row-snoc key row [] = refl
find_row-snoc key row (r ∷ rows) = ground (arith, find_row-snoc key row rows)

pub snoc-UniqueRows :
    (row : Row) (rows : List Row)
    → UniqueRows rows
    → find_row row.id rows ≡ none
    → UniqueRows (rows ++ row ∷ [])
unfolding find_row
snoc-UniqueRows row [] u h = (refl, tt)
snoc-UniqueRows row (r ∷ rows) (absent, u) h = ground (
  arith,
  snoc-UniqueRows row rows u,
  find_row-snoc r.id row rows,
  eq_bytes_iff r.id row.id,
  eq_bytes_iff row.id r.id,
)

pub refs-append : (k : Bytes) (xs ys : List Row) → refs k (xs ++ ys) ≡ refs k xs + refs k ys
unfolding refs
refs-append k [] ys = omega arith
refs-append k (r ∷ xs) ys = ground (arith, refs-append k xs ys)
