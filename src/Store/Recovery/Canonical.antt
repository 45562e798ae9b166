-- ===== src/Store/Recovery/Canonical.antt =====
-- The start of a store leaves only canonical recipients.
use tmpmail_fyi.Common.{
  length, All, Bytes, pos, suc, ◌≡◌, refl, sym, ap, subst, ◌∙◌, true, none, List, [], ◌∷◌, arith,
}
use tmpmail_fyi.Address.{}
use tmpmail_fyi.Store.State.{Row, Db, Store, Error, IsReal, Schedule, pure, in_tx}
use tmpmail_fyi.Store.Post.{Post, weaken-Post, attempt-Post, if-Post, in_tx-Post}
use tmpmail_fyi.Store.Tables.{find_row}
use tmpmail_fyi.Store.Tables.Rows.{UniqueRows, refs}
use tmpmail_fyi.Store.Valid.{charged, IsValid}
use tmpmail_fyi.Store.Pending.{is_empty}
use tmpmail_fyi.Store.Recovery.{stale_recipients, rename_all, normalize_stored_recipients}
use tmpmail_fyi.Store.Recovery.Readdress.{
  Readdressed, IsCanonical, renamed, renamed-Readdressed, renamed-Canonical, stale-Settling, DoneBy,
  rename_all-DoneBy,
}

same_id : (r q : Row) → q ≡ record r { recipient = q.recipient } → q.id ≡ r.id
same_id r q e = ap (λ (x : Row). x.id) e

same_blob : (r q : Row) → q ≡ record r { recipient = q.recipient } → q.blob_id ≡ r.blob_id
same_blob r q e = ap (λ (x : Row). x.blob_id) e

absent-Readdressed :
    (id : Bytes) (rows after : List Row)
    → Readdressed rows after
    → find_row id rows ≡ none
    → find_row id after ≡ none
unfolding find_row
absent-Readdressed id [] [] h k = refl
absent-Readdressed id [] (q ∷ after) h k = absurd h
absent-Readdressed id (r ∷ rows) [] h k = absurd h
absent-Readdressed id (r ∷ rows) (q ∷ after) (e, f, h) k =
    ground (arith, same_id r q e, absent-Readdressed id rows after h)

UniqueRows-Readdressed :
    (rows after : List Row) → Readdressed rows after → UniqueRows rows → UniqueRows after
UniqueRows-Readdressed [] [] h u = tt
UniqueRows-Readdressed [] (q ∷ after) h u = absurd h
UniqueRows-Readdressed (r ∷ rows) [] h u = absurd h
UniqueRows-Readdressed (r ∷ rows) (q ∷ after) (e, f, h) (absent, u) = (
  rw (same_id r q e) (absent-Readdressed r.id rows after h absent),
  UniqueRows-Readdressed rows after h u,
)

refs-Readdressed :
    (k : Bytes) (rows after : List Row) → Readdressed rows after → refs k after ≡ refs k rows
unfolding refs
refs-Readdressed k [] [] h = refl
refs-Readdressed k [] (q ∷ after) h = absurd h
refs-Readdressed k (r ∷ rows) [] h = absurd h
refs-Readdressed k (r ∷ rows) (q ∷ after) (e, f, h) =
    rw (same_blob r q e, refs-Readdressed k rows after h) refl

length-Readdressed : (rows after : List Row) → Readdressed rows after → length after ≡ length rows
length-Readdressed [] [] h = refl
length-Readdressed [] (q ∷ after) h = absurd h
length-Readdressed (r ∷ rows) [] h = absurd h
length-Readdressed (r ∷ rows) (q ∷ after) (e, f, h) = ap suc (length-Readdressed rows after h)

Readdressed-IsValid :
    (s : Store) (after : List Row)
    → IsValid s
    → Readdressed s.db.messages after
    → IsValid (record s { db = record s.db { messages = after } })
unfolding charged
Readdressed-IsValid s after v h = record {
  tables = record {
    rows_unique = UniqueRows-Readdressed s.db.messages after h v.tables.rows_unique;
    blobs_unique = v.tables.blobs_unique;
    queue_ordered = v.tables.queue_ordered;
    counted = λ k. refs-Readdressed k s.db.messages after h ∙ v.tables.counted k;
    held = v.tables.held;
  };
  messages_booked = v.messages_booked ∙ ap pos (sym (length-Readdressed s.db.messages after h));
  bytes_booked = v.bytes_booked;
}

-- What the start leaves.
pub record Canonicalized (s : Store) (result : Unit {0}) (t : Store) : Type 0 where
  pub valid : IsValid t
  pub same_rows : Readdressed s.db.messages t.db.messages
  pub canonical : All IsCanonical t.db.messages

done-Canonicalized :
    (s t : Store)
    → IsValid s
    → DoneBy (stale_recipients s.db.messages) s tt t
    → Canonicalized s tt t
done-Canonicalized s t v (db, only) =
    let after = renamed (stale_recipients s.db.messages) s.db.messages in
    let same = renamed-Readdressed (stale_recipients s.db.messages) s.db.messages in
    let rows : t.db.messages ≡ after = ap (λ (d : Db). d.messages) db in
    let whole : t ≡ record s { db = record s.db { messages = after } } =
      only ∙ ap (λ (d : Db). record s { db = d }) db in
    record {
      valid = subst IsValid (sym whole) (Readdressed-IsValid s after v same);
      same_rows = rw rows same;
      canonical = rw rows (
          renamed-Canonical (stale_recipients s.db.messages) s.db.messages
            (stale-Settling [] s.db.messages));
    }

nothing_to_rename : (xs : List Bytes) (s : Store) → is_empty xs ≡ true → DoneBy xs s tt s
unfolding renamed
nothing_to_rename [] s h = (refl, refl)
nothing_to_rename (x ∷ xs) s h = cc

-- From any valid store, whatever calls fail: if normalizeStoredRecipients succeeds then the store is
-- valid, has the same messages up to the form of their recipients, and every recipient is canonical;
-- if it fails then nothing has changed.
pub normalize_stored_recipients-Canonicalized :
    (s : Store) (w : Schedule)
    → IsValid s
    → Post (Canonicalized s) (λ e t. IsReal e × (t ≡ s)) (normalize_stored_recipients s w)
unfolding normalize_stored_recipients
normalize_stored_recipients-Canonicalized s w v =
    let E : Error → Store → Type 0 = λ e t. IsReal e × (t ≡ s) in
    let xs = stale_recipients s.db.messages in
    attempt-Post (Canonicalized s) E _ s w (tt, refl)
      λ w₁.
        attempt-Post (Canonicalized s) E _ s w₁ (tt, refl)
          λ w₂.
            if-Post (Canonicalized s) E (is_empty xs) (pure tt) (in_tx (rename_all xs)) s w₂
              (λ none_stale. done-Canonicalized s s v (nothing_to_rename xs s none_stale))
              (λ some_stale.
                weaken-Post (DoneBy xs s) (Canonicalized s) E E (in_tx (rename_all xs)) s w₂
                  (in_tx-Post (λ _ t. t.db ≡ record s.db { messages = renamed xs s.db.messages })
                    (rename_all xs) s w₂ λ w₃. rename_all-DoneBy xs s w₃)
                  (λ _ t h. done-Canonicalized s t v h) (λ e t h. h))
