-- ===== src/Store/Tables/Queue.antt =====
-- The table pending_deletions: it stays in the order of its key, and its bytes follow each statement.
use tmpmail_fyi.Common.{
  if◌then◌else◌, Bool-cases, All, Bytes, eq_bytes, eq_bytes_iff, lt_bytes, lt_bytes_irrefl,
  lt_bytes_trans, lt_bytes-total, ℕ, ◌+◌, ◌≡◌, refl, ◌∙◌, inl, inr, true, false, ◌||◌, Option, none,
  some, List, [], ◌∷◌, arith,
}
use tmpmail_fyi.Store.State.{PendingFile}
use tmpmail_fyi.Store.Tables.{is_pending, insert_pending, delete_pending, pending_bytes}

abbrev pub IsBelow : Bytes → List PendingFile → Type 0
IsBelow key [] = Unit {0}
IsBelow key (p ∷ pending) = (lt_bytes key p.path ≡ true) × IsBelow key pending

abbrev pub Ordered : List PendingFile → Type 0
Ordered [] = Unit {0}
Ordered (p ∷ pending) = IsBelow p.path pending × Ordered pending

pub IsBelow-trans :
    (key mid : Bytes) (pending : List PendingFile)
    → lt_bytes key mid ≡ true
    → IsBelow mid pending
    → IsBelow key pending
IsBelow-trans key mid [] h b = tt
IsBelow-trans key mid (p ∷ pending) h (q, b) =
    (lt_bytes_trans key mid p.path h q, IsBelow-trans key mid pending h b)

pub pending_bytes-insert :
    (new : PendingFile) (pending : List PendingFile)
    → pending_bytes (insert_pending new pending) ≡ new.size + pending_bytes pending
unfolding pending_bytes insert_pending
pending_bytes-insert new [] = refl
pending_bytes-insert new (p ∷ pending) = ground (arith, pending_bytes-insert new pending)

insert_pending-IsBelow :
    (key : Bytes) (new : PendingFile) (pending : List PendingFile)
    → lt_bytes key new.path ≡ true
    → IsBelow key pending
    → IsBelow key (insert_pending new pending)
unfolding insert_pending
insert_pending-IsBelow key new [] h b = (h, tt)
insert_pending-IsBelow key new (p ∷ pending) h (q, b) =
    ground (arith, insert_pending-IsBelow key new pending h b)

pub insert_pending-Ordered :
    (new : PendingFile) (pending : List PendingFile)
    → is_pending new.path pending ≡ false
    → Ordered pending
    → Ordered (insert_pending new pending)
unfolding insert_pending is_pending
insert_pending-Ordered new [] h o = (tt, tt)
insert_pending-Ordered new (p ∷ pending) h (b, o) = elim (Bool-cases (lt_bytes new.path p.path)) [
  | inl e ↦ rw e ((e, IsBelow-trans new.path p.path pending e b), (b, o))
  | inr e ↦
      let other : eq_bytes p.path new.path ≡ false = ground arith in
      let above : lt_bytes p.path new.path ≡ true =
        lt_bytes-total new.path p.path e
          (ground (arith, eq_bytes_iff p.path new.path, eq_bytes_iff new.path p.path)) in
      let rest : is_pending new.path pending ≡ false = ground arith in
      rw e (
        insert_pending-IsBelow p.path new pending above b,
        insert_pending-Ordered new pending rest o,
      )
]

unfoldable pub find_pending : Bytes → List PendingFile → Option ℕ
find_pending key [] = none
find_pending key (p ∷ pending) =
    if eq_bytes p.path key then some p.size else find_pending key pending

-- The queue has this file, at this size.
abbrev pub IsQueued : List PendingFile → PendingFile → Type 0
IsQueued pending q = find_pending q.path pending ≡ some q.size

below-absent :
    (key : Bytes) (pending : List PendingFile)
    → IsBelow key pending
    → find_pending key pending ≡ none
unfolding find_pending
below-absent key [] b = refl
below-absent key (p ∷ pending) (q, b) =
    ground (arith, below-absent key pending b, eq_bytes_iff p.path key, lt_bytes_irrefl key)

delete_pending_absent :
    (key : Bytes) (pending : List PendingFile)
    → find_pending key pending ≡ none
    → delete_pending key pending ≡ pending
unfolding find_pending delete_pending
delete_pending_absent key [] h = refl
delete_pending_absent key (p ∷ pending) h = ground (arith, delete_pending_absent key pending)

pending_bytes-delete :
    (q : PendingFile) (pending : List PendingFile)
    → Ordered pending
    → IsQueued pending q
    → pending_bytes pending ≡ q.size + pending_bytes (delete_pending q.path pending)
unfolding find_pending delete_pending pending_bytes
pending_bytes-delete q [] o h = cc
pending_bytes-delete q (p ∷ pending) (b, o) h = elim (Bool-cases (eq_bytes p.path q.path)) [
  | inl e ↦
      let same : p.path ≡ q.path = (eq_bytes_iff p.path q.path).0 e in
      let rest : find_pending q.path pending ≡ none = rw (← same) (below-absent p.path pending b) in
      ground (arith, delete_pending_absent q.path pending rest)
  | inr e ↦ ground (arith, pending_bytes-delete q pending o)
]

find_pending-delete :
    (key k : Bytes) (pending : List PendingFile)
    → eq_bytes key k ≡ false
    → find_pending k (delete_pending key pending) ≡ find_pending k pending
unfolding find_pending delete_pending
find_pending-delete key k [] h = refl
find_pending-delete key k (p ∷ pending) h = ground (
  arith,
  find_pending-delete key k pending,
  eq_bytes_iff p.path key,
  eq_bytes_iff p.path k,
  eq_bytes_iff key k,
)

delete_pending-IsBelow :
    (k key : Bytes) (pending : List PendingFile)
    → IsBelow k pending
    → IsBelow k (delete_pending key pending)
unfolding delete_pending
delete_pending-IsBelow k key [] b = tt
delete_pending-IsBelow k key (p ∷ pending) (q, b) =
    ground (arith, delete_pending-IsBelow k key pending b)

delete_pending-Ordered :
    (key : Bytes) (pending : List PendingFile)
    → Ordered pending
    → Ordered (delete_pending key pending)
unfolding delete_pending
delete_pending-Ordered key [] o = tt
delete_pending-Ordered key (p ∷ pending) (b, o) =
    ground
      (arith, delete_pending-Ordered key pending o, delete_pending-IsBelow p.path key pending b)

-- The statements of one transaction, on the table.
unfoldable pub delete_all_pending : List PendingFile → List PendingFile → List PendingFile
delete_all_pending [] pending = pending
delete_all_pending (q ∷ removed) pending =
    delete_all_pending removed (delete_pending q.path pending)

IsQueued-delete :
    (key : Bytes) (removed pending : List PendingFile)
    → IsBelow key removed
    → All (IsQueued pending) removed
    → All (IsQueued (delete_pending key pending)) removed
IsQueued-delete key [] pending b h = tt
IsQueued-delete key (q ∷ removed) pending (l, b) (p, h) = (
  find_pending-delete key q.path pending
        (ground (arith, eq_bytes_iff key q.path, lt_bytes_irrefl key))
      ∙ p,
  IsQueued-delete key removed pending b h,
)

pub delete_all_pending-Ordered :
    (removed pending : List PendingFile)
    → Ordered pending
    → Ordered (delete_all_pending removed pending)
unfolding delete_all_pending
delete_all_pending-Ordered [] pending o = o
delete_all_pending-Ordered (q ∷ removed) pending o =
    delete_all_pending-Ordered removed (delete_pending q.path pending)
      (delete_pending-Ordered q.path pending o)

-- Forgetting queued files takes exactly their bytes off the queue.
pub pending_bytes-delete_files :
    (removed pending : List PendingFile)
    → Ordered pending
    → Ordered removed
    → All (IsQueued pending) removed
    → pending_bytes pending
      ≡ pending_bytes removed + pending_bytes (delete_all_pending removed pending)
unfolding delete_all_pending pending_bytes
pending_bytes-delete_files [] pending o r h = omega arith
pending_bytes-delete_files (q ∷ removed) pending o (b, r) (p, h) = omega (
  arith,
  pending_bytes-delete q pending o p,
  pending_bytes-delete_files removed (delete_pending q.path pending)
      (delete_pending-Ordered q.path pending o) r (IsQueued-delete q.path removed pending b h),
)

pub is_pending-insert :
    (key : Bytes) (new : PendingFile) (pending : List PendingFile)
    → is_pending key (insert_pending new pending)
      ≡ (eq_bytes new.path key || is_pending key pending)
unfolding is_pending insert_pending
is_pending-insert key new [] = ground arith
is_pending-insert key new (p ∷ pending) = ground (arith, is_pending-insert key new pending)

is_pending-delete :
    (key path : Bytes) (pending : List PendingFile)
    → is_pending key pending ≡ false
    → is_pending key (delete_pending path pending) ≡ false
unfolding is_pending delete_pending
is_pending-delete key path [] h = refl
is_pending-delete key path (p ∷ pending) h = ground (arith, is_pending-delete key path pending)

pub is_pending-delete_all :
    (key : Bytes) (removed pending : List PendingFile)
    → is_pending key pending ≡ false
    → is_pending key (delete_all_pending removed pending) ≡ false
unfolding delete_all_pending
is_pending-delete_all key [] pending h = h
is_pending-delete_all key (p ∷ removed) pending h =
    is_pending-delete_all key removed (delete_pending p.path pending)
      (is_pending-delete key p.path pending h)
