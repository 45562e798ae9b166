-- ===== src/Store/Cleanup/Deletes.antt =====
-- A batch removes exactly the rows that it read, all of them expired.
use tmpmail_fyi.Common.{
  leb, if◌then◌else◌, Bool-cases, is_none, length, take, keep_if, All, All-take, All-keep_if, Bytes,
  eq_bytes, eq_bytes_iff, ℕ, zero, suc, ◌+◌, ◌≤◌, ◌<◌, ◌≡◌, refl, sym, ap, ◌∙◌, inl, inr, Bool,
  true, none, some, List, [], ◌∷◌, arith,
}
use tmpmail_fyi.Store.State.{Row, Db, Store, Schedule}
use tmpmail_fyi.Store.Tables.{find_row, delete_row, blob_bytes, pending_bytes}
use tmpmail_fyi.Store.Tables.Rows.{UniqueRows, find_row-delete_row, length-delete_row}
use tmpmail_fyi.Store.Post.{Post, bind-Post, attempt-Post}
use tmpmail_fyi.Store.Valid.{WellFormed, OnlyDb, OnlyDb-trans, OnlyDbError}
use tmpmail_fyi.Store.Evict.{delete_message}
use tmpmail_fyi.Store.Evict.Deletion.{Deleted, delete_message-Post}
use tmpmail_fyi.Store.Evict.Oldest.{Holds, find_row_of_Holds}
use tmpmail_fyi.Store.Save.Delivery.{AllStored}
use tmpmail_fyi.Store.Save.Insert.{All-Holds_self}
use tmpmail_fyi.Store.Cleanup.{delete_all, expired_rows, delete_batch}

-- The rows are gone, and no others.
pub record Removed (rows : List Row) (db : Db) (result : ℕ × ℕ) (after : Db) : Type 0 where
  pub tables : WellFormed after
  pub count : result.0 ≡ length rows
  pub left : length db.messages ≡ length after.messages + length rows
  pub bytes : blob_bytes db.blobs ≡ blob_bytes after.blobs + result.1
  pub queue : pending_bytes after.pending ≡ pending_bytes db.pending + result.1
  pub lookup :
      (id : Bytes)
      → find_row id after.messages
        ≡ (if is_none (find_row id rows) then find_row id db.messages else none)

abbrev pub Removes : List Row → Store → ℕ × ℕ → Store → Type 0
Removes rows s result t = Removed rows s.db result t.db × OnlyDb s t

AllStored-delete_row :
    (id : Bytes) (table rows : List Row)
    → find_row id rows ≡ none
    → AllStored table rows
    → AllStored (delete_row id table) rows
unfolding find_row
AllStored-delete_row id table [] h a = tt
AllStored-delete_row id table (r ∷ rows) h (p, a) = (
  ground (arith, find_row-delete_row id r.id table, eq_bytes_iff r.id id, eq_bytes_iff id r.id),
  AllStored-delete_row id table rows (ground arith) a,
)

delete_all-Removes :
    (rows : List Row) (s : Store) (w : Schedule)
    → WellFormed s.db
    → UniqueRows rows
    → AllStored s.db.messages rows
    → Post (Removes rows s) (OnlyDbError s) (delete_all rows s w)
unfolding delete_all find_row
delete_all-Removes [] s w v u a = (
  record {
    tables = v;
    count = refl;
    left = omega arith;
    bytes = omega arith;
    queue = omega arith;
    lookup = λ id. refl;
  },
  refl,
)
delete_all-Removes (r ∷ rows) s w v (absent, u) (found, a) =
    bind-Post (λ released t. Deleted r.id s.db released t.db × OnlyDb s t) (OnlyDbError s)
      (OnlyDbError s) (Removes (r ∷ rows) s) (delete_message r.id r.blob_id) _ s w
      (delete_message-Post r.id r s w v found) (λ e t h. h)
      λ released t w₁ (d, only).
        bind-Post (Removes rows t) (OnlyDbError s) (OnlyDbError t) (Removes (r ∷ rows) s)
          (delete_all rows) _ t w₁
          (delete_all-Removes rows t w₁ d.tables u
            (rw d.rows (AllStored-delete_row r.id s.db.messages rows absent a)))
          (λ e x (real, only'). (real, OnlyDb-trans s t x only only'))
          λ result x w₂ (m, only'). (
            record {
              tables = m.tables;
              count = ap suc m.count;
              left = omega (
                arith,
                m.left,
                length-delete_row r.id r s.db.messages v.rows_unique found,
                ap length d.rows,
              );
              bytes = omega (arith, m.bytes, d.bytes);
              queue = omega (arith, m.queue, d.queue);
              lookup = λ id.
                  ground (arith, m.lookup id, d.rows, find_row-delete_row r.id id s.db.messages);
            },
            OnlyDb-trans s t x only only',
          )

abbrev pub is_expired : ℕ → Row → Bool
is_expired before r = leb r.expires_at before

find_row-keep_if-none :
    (p : Row → Bool) (id : Bytes) (rows : List Row)
    → find_row id rows ≡ none
    → find_row id (keep_if p rows) ≡ none
unfolding find_row
find_row-keep_if-none p id [] h = refl
find_row-keep_if-none p id (r ∷ rows) h = ground (arith, find_row-keep_if-none p id rows)

pub find_row-keep_if :
    (p : Row → Bool) (id : Bytes) (row : Row) (rows : List Row)
    → find_row id rows ≡ some row
    → p row ≡ true
    → find_row id (keep_if p rows) ≡ some row
unfolding find_row
find_row-keep_if p id row [] h k = cc
find_row-keep_if p id row (r ∷ rows) h k = elim (Bool-cases (eq_bytes r.id id)) [
  | inl e ↦
      let same : r ≡ row = ground arith in
      let pass : p r ≡ true = ap p same ∙ k in rw pass (ground arith)
  | inr e ↦ ground (arith, find_row-keep_if p id row rows)
]

keep_if-UniqueRows :
    (p : Row → Bool) (rows : List Row) → UniqueRows rows → UniqueRows (keep_if p rows)
keep_if-UniqueRows p [] u = tt
keep_if-UniqueRows p (r ∷ rows) (absent, u) =
    ground (arith, keep_if-UniqueRows p rows u, find_row-keep_if-none p r.id rows absent)

find_row-take-none :
    (n : ℕ) (id : Bytes) (rows : List Row)
    → find_row id rows ≡ none
    → find_row id (take n rows) ≡ none
unfolding find_row
find_row-take-none zero id rows h = refl
find_row-take-none (suc n) id [] h = refl
find_row-take-none (suc n) id (r ∷ rows) h = ground (arith, find_row-take-none n id rows)

take-UniqueRows : (n : ℕ) (rows : List Row) → UniqueRows rows → UniqueRows (take n rows)
take-UniqueRows zero rows u = tt
take-UniqueRows (suc n) [] u = tt
take-UniqueRows (suc n) (r ∷ rows) (absent, u) =
    (find_row-take-none n r.id rows absent, take-UniqueRows n rows u)

keep_if-All : (p : Row → Bool) (rows : List Row) → All (λ r. p r ≡ true) (keep_if p rows)
keep_if-All p [] = tt
keep_if-All p (r ∷ rows) = elim (Bool-cases (p r)) [
  | inl e ↦ rw e (e, keep_if-All p rows)
  | inr e ↦ rw e (keep_if-All p rows)
]

AllStored-of :
    (table rows : List Row)
    → UniqueRows table
    → All (λ r. Holds r table) rows
    → AllStored table rows
AllStored-of table [] u h = tt
AllStored-of table (r ∷ rows) u (p, h) =
    (find_row_of_Holds r table u p, AllStored-of table rows u h)

-- The rows of a batch are in the table, under unique keys, and have expired.
pub record IsBatch (before : ℕ) (table rows : List Row) : Type 0 where
  pub unique : UniqueRows rows
  pub stored : AllStored table rows
  pub overdue : All (λ r. is_expired before r ≡ true) rows

pub expired_rows-IsBatch :
    (before : ℕ) (table : List Row)
    → UniqueRows table
    → IsBatch before table (expired_rows before table)
expired_rows-IsBatch before table u =
    let expired = keep_if (is_expired before) table in
    record {
      unique = take-UniqueRows 256 expired (keep_if-UniqueRows (is_expired before) table u);
      stored =
          All-take (λ r. find_row r.id table ≡ some r) 256 expired
            (All-keep_if (λ r. find_row r.id table ≡ some r) (is_expired before) table
              (AllStored-of table table u (All-Holds_self [] table)));
      overdue =
          All-take (λ r. is_expired before r ≡ true) 256 expired
            (keep_if-All (is_expired before) table);
    }

-- What a batch does to the tables.
pub delete_batch-Removes :
    (before : ℕ) (s : Store) (w : Schedule)
    → WellFormed s.db
    → Post (Removes (expired_rows before s.db.messages) s) (OnlyDbError s) (delete_batch before s w)
unfolding delete_batch
delete_batch-Removes before s w v =
    let rows = expired_rows before s.db.messages in
    let b = expired_rows-IsBatch before s.db.messages v.rows_unique in
    attempt-Post (Removes rows s) (OnlyDbError s) _ s w (tt, refl)
      λ w₁.
        attempt-Post (Removes rows s) (OnlyDbError s) _ s w₁ (tt, refl)
          λ w₂. delete_all-Removes rows s w₂ v b.unique b.stored

-- A row that has not expired is in no batch.
pub batch_spares :
    (before : ℕ) (table rows : List Row) (id : Bytes) (row : Row)
    → IsBatch before table rows
    → find_row id table ≡ some row
    → before < row.expires_at
    → find_row id rows ≡ none
unfolding find_row
batch_spares before table [] id row b h live = refl
batch_spares before table (r ∷ rows) id row b h live = elim (Bool-cases (eq_bytes r.id id)) [
  | inl e ↦
      let at : r.id ≡ id = (eq_bytes_iff r.id id).0 e in
      let same : some r ≡ some row = sym b.stored.0 ∙ ap (λ k. find_row k table) at ∙ h in
      absurd (ground (arith, b.overdue.0))
  | inr e ↦ rw e (
      batch_spares before table rows id row
        (record { unique = b.unique.1; stored = b.stored.1; overdue = b.overdue.1 }) h live)
]

take-short {ℓ} : {A : Type ℓ} (n : ℕ) (xs : List A) → length (take n xs) < n → take n xs ≡ xs
take-short zero xs h = elim h [ ]
take-short (suc n) [] h = refl
take-short (suc n) (x ∷ xs) h = ap (◌∷◌ x) (take-short n xs (omega arith))

-- A batch that is not full holds every expired row.
pub short_batch_takes :
    (before : ℕ) (table : List Row) (id : Bytes) (row : Row)
    → length (expired_rows before table) < 256
    → find_row id table ≡ some row
    → row.expires_at ≤ before
    → find_row id (expired_rows before table) ≡ some row
short_batch_takes before table id row short h over =
    ap (find_row id) (take-short 256 (keep_if (is_expired before) table) short)
    ∙ find_row-keep_if (is_expired before) id row table h (ground arith)
