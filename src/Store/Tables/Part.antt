-- ===== src/Store/Tables/Part.antt =====
-- A part of the queue of files awaiting deletion, in its order: what a batch reads, and what of it is
-- removed.
use tmpmail_fyi.Common.{
  Bool-cases, take, All, All-take, Bytes, eq_bytes_refl, eq_bytes_iff, lt_bytes, lt_bytes_irrefl, ℕ,
  zero, suc, ◌≡◌, refl, inl, inr, false, List, [], ◌∷◌, arith,
}
use tmpmail_fyi.Store.State.{PendingFile}
use tmpmail_fyi.Store.Tables.{is_pending, pending_after}
use tmpmail_fyi.Store.Tables.Queue.{IsBelow, Ordered, find_pending, IsQueued}

pub record Within (whole part : List PendingFile) : Type 0 where
  pub below : (key : Bytes) → IsBelow key whole → IsBelow key part
  pub ordered : Ordered whole → Ordered part
  pub queued : (table : List PendingFile) → All (IsQueued table) whole → All (IsQueued table) part
  pub absent : (path : Bytes) → is_pending path whole ≡ false → is_pending path part ≡ false

pub Within-nil : Within [] []
Within-nil = record {
  below = λ key b. tt;
  ordered = λ o. tt;
  queued = λ table h. tt;
  absent = λ path h. h;
}

module _ {whole part : List PendingFile} (p : PendingFile) (i : Within whole part) where
  pub Within-skip : Within (p ∷ whole) part
  unfolding is_pending
  Within-skip = record {
    below = λ key b. i.below key b.1;
    ordered = λ o. i.ordered o.1;
    queued = λ table h. i.queued table h.1;
    absent = λ path h. i.absent path (ground arith);
  }

  pub Within-keep : Within (p ∷ whole) (p ∷ part)
  unfolding is_pending
  Within-keep = record {
    below = λ key b. (b.0, i.below key b.1);
    ordered = λ o. (i.below p.path o.0, i.ordered o.1);
    queued = λ table h. (h.0, i.queued table h.1);
    absent = λ path h. ground (arith, i.absent path);
  }

take-IsBelow :
    (n : ℕ) (part : List PendingFile) (key : Bytes) → IsBelow key part → IsBelow key (take n part)
take-IsBelow zero part key b = tt
take-IsBelow (suc n) [] key b = tt
take-IsBelow (suc n) (p ∷ part) key (q, b) = (q, take-IsBelow n part key b)

take-Ordered : (n : ℕ) (part : List PendingFile) → Ordered part → Ordered (take n part)
take-Ordered zero part o = tt
take-Ordered (suc n) [] o = tt
take-Ordered (suc n) (p ∷ part) (b, o) = (take-IsBelow n part p.path b, take-Ordered n part o)

take-is_pending :
    (n : ℕ) (part : List PendingFile) (path : Bytes)
    → is_pending path part ≡ false
    → is_pending path (take n part) ≡ false
unfolding is_pending
take-is_pending zero part path h = refl
take-is_pending (suc n) [] path h = h
take-is_pending (suc n) (p ∷ part) path h = ground (arith, take-is_pending n part path)

take-Within :
    (n : ℕ) (whole part : List PendingFile) → Within whole part → Within whole (take n part)
take-Within n whole part i = record {
  below = λ key b. take-IsBelow n part key (i.below key b);
  ordered = λ o. take-Ordered n part (i.ordered o);
  queued = λ table h. All-take (IsQueued table) n part (i.queued table h);
  absent = λ path h. take-is_pending n part path (i.absent path h);
}

pending_after-Within :
    (cursor : Bytes) (pending : List PendingFile) → Within pending (pending_after cursor pending)
unfolding pending_after
pending_after-Within cursor [] = Within-nil
pending_after-Within cursor (p ∷ pending) = elim (Bool-cases (lt_bytes cursor p.path)) [
  | inl e ↦ rw e (Within-keep p (pending_after-Within cursor pending))
  | inr e ↦ rw e (Within-skip p (pending_after-Within cursor pending))
]

-- A batch reads a part of the queue.
pub batch-Within :
    (n : ℕ) (cursor : Bytes) (pending : List PendingFile)
    → Within pending (take n (pending_after cursor pending))
batch-Within n cursor pending =
    take-Within n pending (pending_after cursor pending) (pending_after-Within cursor pending)

IsQueued-cons :
    (p : PendingFile) (table files : List PendingFile)
    → IsBelow p.path files
    → All (IsQueued table) files
    → All (IsQueued (p ∷ table)) files
unfolding find_pending
IsQueued-cons p table [] b h = tt
IsQueued-cons p table (q ∷ files) (l, b) (k, h) = (
  ground (arith, eq_bytes_iff p.path q.path, lt_bytes_irrefl q.path),
  IsQueued-cons p table files b h,
)

-- Every file of the queue is in it, at its size.
pub Ordered-IsQueued :
    (pending : List PendingFile) → Ordered pending → All (IsQueued pending) pending
unfolding find_pending
Ordered-IsQueued [] o = tt
Ordered-IsQueued (p ∷ pending) (b, o) =
    (rw (eq_bytes_refl p.path) refl, IsQueued-cons p pending pending b (Ordered-IsQueued pending o))
