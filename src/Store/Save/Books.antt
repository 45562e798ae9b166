-- ===== src/Store/Save/Books.antt =====
-- The books after a delivery.
use tmpmail_fyi.Common.{
  Bool-cases, length, All, length-append, Bytes, eq_bytes, eq_bytes_refl, ◌+ℤ◌, ◌-ℤ◌, ltb_ℤ, pos, ℕ,
  suc, ◌+◌, ◌≤◌, ◌≡◌, refl, sym, ap, subst, ◌∙◌, ◌⊎◌, inl, inr, false, some, List, [], ◌∷◌, ◌++◌,
  arith,
}
use tmpmail_fyi.Config.{Config}
use tmpmail_fyi.Store.State.{Row, Store, CleanupStats}
use tmpmail_fyi.Store.Tables.{find_blob, find_row, blob_bytes}
use tmpmail_fyi.Store.Valid.{charged, IsValid, OnlyDb}
use tmpmail_fyi.Store.Pending.Keeps.{SameMail, Sound}
use tmpmail_fyi.Store.Evict.Oldest.{Holds}
use tmpmail_fyi.Store.Save.{Message, MailParser, Draws}
use tmpmail_fyi.Store.Save.Insert.{All-Holds_self, rows_of, messages_of, delivery_blob}
use tmpmail_fyi.Store.Save.Delivery.{AllStored, Committed}

rows_balance :
    (before added evicted expired after : ℕ)
    → before + added ≡ after + (expired + evicted)
    → pos before +ℤ (pos added -ℤ pos evicted -ℤ pos expired) ≡ pos after
rows_balance before added evicted expired after h = ground arith

bytes_balance :
    (before added after : ℕ) → after ≡ before + added → pos before +ℤ pos added ≡ pos after
bytes_balance before added after h = ground arith

cap_holds :
    (cap before added freed : ℕ)
    → ltb_ℤ (pos cap) ((pos before +ℤ pos added) -ℤ pos freed) ≡ false
    → before + added ≤ cap + freed
cap_holds cap before added freed h = ground arith

find_row-append :
    (id : Bytes) (row : Row) (xs ys : List Row)
    → find_row id (xs ++ ys) ≡ some row
    → (find_row id xs ≡ some row) ⊎ (find_row id ys ≡ some row)
unfolding find_row
find_row-append id row [] ys h = inr h
find_row-append id row (x ∷ xs) ys h = elim (Bool-cases (eq_bytes x.id id)) [
  | inl e ↦ inl (rw e (rw e at h))
  | inr e ↦ rw e (find_row-append id row xs ys (rw e at h))
]

find_row-All :
    (P : Row → Type 0) (id : Bytes) (row : Row) (rows : List Row)
    → All P rows
    → find_row id rows ≡ some row
    → P row
unfolding find_row
find_row-All P id row [] a h = absurd (ground arith)
find_row-All P id row (x ∷ rows) (p, a) h = elim (Bool-cases (eq_bytes x.id id)) [
  | inl e ↦ let same : x ≡ row = ground arith in subst P same p
  | inr e ↦ find_row-All P id row rows a (rw e at h)
]

module _ (mail : MailParser) (cfg : Config) (msg_dir : Bytes) (d : Draws) (details : Bytes × Bytes)
    (size : ℕ) (recipients : List Bytes) where
  -- What a successful delivery promises: the store is valid; the messages returned are one for each
  -- recipient, and each has its row in the table; their blob names the file, its size and their number;
  -- the blobs are within the cap; and any row of the table was there before or is one of these.
  pub record Delivered (s : Store) (messages : List Message) (t : Store) : Type 0 where
    pub valid : IsValid t
    pub returned : messages ≡ messages_of mail cfg msg_dir d details size 0 recipients
    pub stored : AllStored t.db.messages (rows_of mail cfg msg_dir d details size 0 recipients)
    pub blob :
        find_blob d.blob_id t.db.blobs
        ≡ some (delivery_blob mail cfg msg_dir d details size recipients)
    pub within_cap : blob_bytes t.db.blobs ≤ cfg.max_storage_bytes
    pub no_others :
        (id : Bytes) (row : Row)
        → find_row id t.db.messages ≡ some row
        → (find_row id s.db.messages ≡ some row)
          ⊎ Holds row (rows_of mail cfg msg_dir d details size 0 recipients)

  -- It outlives whatever leaves the mail alone.
  pub Delivered-Sound :
      (s t u : Store) (messages : List Message)
      → Delivered s messages t
      → Sound t u
      → Delivered s messages u
  Delivered-Sound s t u messages r (v, same) = record {
    valid = v;
    returned = r.returned;
    stored = rw same.messages r.stored;
    blob = rw same.blobs r.blob;
    within_cap = rw same.blobs r.within_cap;
    no_others = λ id row h. r.no_others id row (sym (ap (find_row id) same.messages) ∙ h);
  }

  pub Delivered-before :
      (s t u : Store) (messages : List Message)
      → SameMail s t
      → Delivered t messages u
      → Delivered s messages u
  Delivered-before s t u messages same r = record {
    valid = r.valid;
    returned = r.returned;
    stored = r.stored;
    blob = r.blob;
    within_cap = r.within_cap;
    no_others = λ id row h. elim (r.no_others id row h) [
      | inl e ↦ inl (sym (ap (find_row id) same.messages) ∙ e)
      | inr e ↦ inr e
    ];
  }

  abbrev pub counted_in : CleanupStats → Store → Store
  counted_in stats t = record t {
    stored_bytes = t.stored_bytes +ℤ pos size;
    stored_messages =
        t.stored_messages +ℤ (pos (length recipients) -ℤ pos stats.evicted -ℤ pos stats.expired);
  }

  length-rows_of :
      (i : ℕ) (rs : List Bytes) → length (rows_of mail cfg msg_dir d details size i rs) ≡ length rs
  length-rows_of i [] = refl
  length-rows_of i (r ∷ rs) = ap suc (length-rows_of (suc i) rs)

  module _ (s : Store) (messages : List Message) (stats : CleanupStats) (t : Store) (v : IsValid s)
      (calm : s.storage_fault ≡ false)
      (c : Committed mail cfg msg_dir d details size recipients s (messages, stats) t)
      (only : OnlyDb s t) where
    balance :
        length s.db.messages + length recipients
        ≡ length t.db.messages + (stats.expired + stats.evicted)
    balance = omega (
      arith,
      c.evicted.rows,
      length-append s.db.messages (rows_of mail cfg msg_dir d details size 0 recipients),
      length-rows_of 0 recipients,
    )

    charge : charged t.db ≡ charged s.db + size
    unfolding charged blob_bytes
    charge = omega (arith, c.evicted.bytes, c.evicted.queue)

    counted_in-IsValid : IsValid (counted_in stats t)
    counted_in-IsValid = record {
      tables = c.evicted.tables;
      messages_booked =
          ap (λ z. z +ℤ (pos (length recipients) -ℤ pos stats.evicted -ℤ pos stats.expired))
            (ap (λ (x : Store). x.stored_messages) only ∙ v.messages_booked)
          ∙ rows_balance (length s.db.messages) (length recipients) stats.evicted stats.expired
              (length t.db.messages) balance;
      bytes_booked = λ _.
          ap (λ z. z +ℤ pos size) (ap (λ (x : Store). x.stored_bytes) only ∙ v.bytes_booked calm)
          ∙ bytes_balance (charged s.db) size (charged t.db) charge;
    }

    within : blob_bytes t.db.blobs ≤ cfg.max_storage_bytes
    unfolding charged blob_bytes
    within = omega (
      arith,
      cap_holds cfg.max_storage_bytes (charged s.db) size c.freed
          (rw (v.bytes_booked calm) at c.fits),
      c.evicted.bytes,
    )

    pub counted_in-Delivered : Delivered s messages (counted_in stats t)
    unfolding find_blob
    counted_in-Delivered = record {
      valid = counted_in-IsValid;
      returned = c.messages;
      stored = c.stored;
      blob = c.evicted.protected_blob ∙ rw (eq_bytes_refl d.blob_id) refl;
      within_cap = within;
      no_others = λ id row h.
          elim (find_row-append id row s.db.messages
            (rows_of mail cfg msg_dir d details size 0 recipients) (c.evicted.subset id row h)) [
              | inl e ↦ inl e
              | inr e ↦ inr (
                  find_row-All (λ r. Holds r (rows_of mail cfg msg_dir d details size 0 recipients))
                    id row (rows_of mail cfg msg_dir d details size 0 recipients)
                    (All-Holds_self [] (rows_of mail cfg msg_dir d details size 0 recipients)) e)
            ];
    }
