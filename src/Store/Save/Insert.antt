-- ===== src/Store/Save/Insert.antt =====
-- The insertion of a delivery: one blob, and one row for each recipient.
use mathlib.Core.List.{append_assoc, append-nil}
use tmpmail_fyi.Common.{
  if◌then◌else◌, length, All, Bytes, eq_bytes, eq_bytes_refl, eq_bytes_iff, ℕ, suc, ◌<◌, ◌≡◌, refl,
  sym, ap, subst, ◌∙◌, inl, inr, true, none, List, [], ◌∷◌, ◌++◌, arith,
}
use tmpmail_fyi.Config.{Config}
use tmpmail_fyi.Store.State.{Row, Blob, Db, Store, Schedule, constraint}
use tmpmail_fyi.Store.Tables.{find_blob, find_row}
use tmpmail_fyi.Store.Tables.Rows.{UniqueRows, refs, snoc-UniqueRows, refs-append}
use tmpmail_fyi.Store.Tables.Blobs.{recorded_refs, recorded_refs-absent}
use tmpmail_fyi.Store.Post.{Post, bind-Post, attempt-Post, guard-Post, step-Post}
use tmpmail_fyi.Store.Valid.{WellFormed, OnlyDb, OnlyDb-trans, OnlyDbError}
use tmpmail_fyi.Store.Evict.Oldest.{Holds}
use tmpmail_fyi.Store.Save.{
  Message, MailParser, Draws, is_none, insert_blob, insert_row, final_path, message_row, message_of,
  insert_messages,
}

pub Holds-append_left : (r : Row) (xs ys : List Row) → Holds r xs → Holds r (xs ++ ys)
Holds-append_left r [] ys h = absurd h
Holds-append_left r (x ∷ xs) ys (inl e) = inl e
Holds-append_left r (x ∷ xs) ys (inr h) = inr (Holds-append_left r xs ys h)

pub Holds-append_right : (r : Row) (xs ys : List Row) → Holds r ys → Holds r (xs ++ ys)
Holds-append_right r [] ys h = h
Holds-append_right r (x ∷ xs) ys h = inr (Holds-append_right r xs ys h)

pub All-Holds_self : (xs ys : List Row) → All (λ r. Holds r (xs ++ ys)) ys
All-Holds_self xs [] = tt
All-Holds_self xs (y ∷ ys) = (
  Holds-append_right y xs (y ∷ ys) (inl refl),
  subst (λ zs. All (λ r. Holds r zs) ys) (append_assoc xs (y ∷ []) ys)
      (All-Holds_self (xs ++ y ∷ []) ys),
)

pub insert_row-Post :
    (row : Row) (s₀ s : Store) (w : Schedule)
    → OnlyDb s₀ s
    → Post
        (λ _ t.
          (find_row row.id s.db.messages ≡ none)
          × (t ≡ record s { db = record s.db { messages = s.db.messages ++ row ∷ [] } }))
        (OnlyDbError s₀)
        (insert_row row s w)
unfolding insert_row
insert_row-Post row s₀ s w only =
    attempt-Post _ (OnlyDbError s₀) _ s w (tt, only)
      λ v.
        guard-Post _ (OnlyDbError s₀) (is_none (find_row row.id s.db.messages)) constraint _ s v
          (λ _. (tt, only)) λ fresh. (ground arith, refl)

pub insert_blob-Post :
    (blob : Blob) (s : Store) (w : Schedule)
    → Post
        (λ _ t.
          (find_blob blob.id s.db.blobs ≡ none)
          × (t ≡ record s { db = record s.db { blobs = blob ∷ s.db.blobs } }))
        (OnlyDbError s)
        (insert_blob blob s w)
unfolding insert_blob
insert_blob-Post blob s w =
    attempt-Post _ (OnlyDbError s) _ s w (tt, refl)
      λ v.
        guard-Post _ (OnlyDbError s) (is_none (find_blob blob.id s.db.blobs)) constraint _ s v
          (λ _. (tt, refl)) λ fresh. (ground arith, refl)

module _ (mail : MailParser) (cfg : Config) (msg_dir : Bytes) (d : Draws) (details : Bytes × Bytes)
    (size : ℕ) where
  -- The rows and the messages of a delivery.
  abbrev pub rows_of : ℕ → List Bytes → List Row
  rows_of i [] = []
  rows_of i (recipient ∷ recipients) =
      message_row mail cfg msg_dir d i recipient details size ∷ rows_of (suc i) recipients

  abbrev pub messages_of : ℕ → List Bytes → List Message
  messages_of i [] = []
  messages_of i (recipient ∷ recipients) =
      message_of mail cfg msg_dir d i recipient details size ∷ messages_of (suc i) recipients

  abbrev with_rows : List Row → Store → Store
  with_rows rows s = record s { db = record s.db { messages = s.db.messages ++ rows } }

  abbrev Inserts : ℕ → List Bytes → Store → List Message → Store → Type 0
  Inserts i recipients s messages t =
      (messages ≡ messages_of i recipients)
      × (t ≡ with_rows (rows_of i recipients) s)
      × UniqueRows (s.db.messages ++ rows_of i recipients)

  pub insert_messages-Post :
      (i : ℕ) (recipients : List Bytes) (s₀ s : Store) (w : Schedule)
      → OnlyDb s₀ s
      → UniqueRows s.db.messages
      → Post
          (Inserts i recipients s)
          (OnlyDbError s₀)
          (insert_messages mail cfg msg_dir d i recipients details size s w)
  unfolding insert_messages
  insert_messages-Post i [] s₀ s w only u = (
    refl,
    ap (λ rows. record s { db = record s.db { messages = rows } }) (sym (append-nil s.db.messages)),
    rw append-nil u,
  )
  insert_messages-Post i (recipient ∷ recipients) s₀ s w only u =
      let row = message_row mail cfg msg_dir d i recipient details size in
      let t₁ = with_rows (row ∷ []) s in
      step-Post t₁ (λ _. find_row row.id s.db.messages ≡ none) (OnlyDbError s₀)
        (Inserts i (recipient ∷ recipients) s) (insert_row row) _ s w
        (insert_row-Post row s₀ s w only)
        λ _ w₁ fresh.
          bind-Post (Inserts (suc i) recipients t₁) (OnlyDbError s₀) (OnlyDbError s₀)
            (Inserts i (recipient ∷ recipients) s)
            (insert_messages mail cfg msg_dir d (suc i) recipients details size) _ t₁ w₁
            (insert_messages-Post (suc i) recipients s₀ t₁ w₁ (OnlyDb-trans s₀ s t₁ only refl)
              (snoc-UniqueRows row s.db.messages u fresh))
            (λ e t h. h)
            λ messages t w₂ (same, end, unique). (
              ap (λ ms. message_of mail cfg msg_dir d i recipient details size ∷ ms) same,
              end
                  ∙ ap (λ rows. record s { db = record s.db { messages = rows } })
                      (append_assoc s.db.messages (row ∷ []) (rows_of (suc i) recipients)),
              subst UniqueRows (append_assoc s.db.messages (row ∷ []) (rows_of (suc i) recipients))
                  unique,
            )

  pub refs-rows_of :
      (k : Bytes) (i : ℕ) (recipients : List Bytes)
      → refs k (rows_of i recipients) ≡ (if eq_bytes d.blob_id k then length recipients else 0)
  unfolding refs
  refs-rows_of k i [] = ground arith
  refs-rows_of k i (recipient ∷ recipients) = ground (arith, refs-rows_of k (suc i) recipients)

  -- Every row of the delivery holds its blob.
  pub rows_of-blob :
      (i : ℕ) (recipients : List Bytes)
      → All (λ r. eq_bytes r.blob_id d.blob_id ≡ true) (rows_of i recipients)
  rows_of-blob i [] = tt
  rows_of-blob i (recipient ∷ recipients) =
      (eq_bytes_refl d.blob_id, rows_of-blob (suc i) recipients)

  abbrev pub delivery_blob : List Bytes → Blob
  delivery_blob recipients = record {
    id = d.blob_id;
    path = final_path mail cfg msg_dir d;
    size = size;
    ref_count = length recipients;
  }

  abbrev pub with_delivery : List Bytes → Db → Db
  with_delivery recipients db = record db {
    messages = db.messages ++ rows_of 0 recipients;
    blobs = delivery_blob recipients ∷ db.blobs;
  }

  -- The tables are well-formed again once all rows are in.
  pub with_delivery-WellFormed :
      (recipients : List Bytes) (db : Db)
      → WellFormed db
      → find_blob d.blob_id db.blobs ≡ none
      → UniqueRows (db.messages ++ rows_of 0 recipients)
      → 0 < length recipients
      → WellFormed (with_delivery recipients db)
  unfolding recorded_refs
  with_delivery-WellFormed recipients db v fresh unique some_one = record {
    rows_unique = unique;
    blobs_unique = (fresh, v.blobs_unique);
    queue_ordered = v.queue_ordered;
    counted = λ k. ground (
      arith,
      refs-append k db.messages (rows_of 0 recipients),
      refs-rows_of k 0 recipients,
      v.counted k,
      eq_bytes_iff d.blob_id k,
      v.counted d.blob_id,
      recorded_refs-absent d.blob_id db.blobs fresh,
    );
    held = (some_one, v.held);
  }
