-- ===== src/Store/Pending/Drain.antt =====
-- Draining the queue of files awaiting deletion keeps the books, whatever calls fail, and removes
-- only queued files.
use tmpmail_fyi.Common.{
  if◌then◌else◌, Bytes, eq_bytes, eq_bytes_iff, ◌≡◌, refl, sym, subst, Bool, true, false, none,
  some, List, [], ◌∷◌, arith,
}
use tmpmail_fyi.Store.State.{
  PendingFile, File, Store, Error, RealOption, Schedule, ◌>>=◌, pure, external,
}
use tmpmail_fyi.Store.Tables.{is_pending, find_file, delete_file}
use tmpmail_fyi.Store.Tables.Part.{Within, Within-nil, Within-skip, Within-keep}
use tmpmail_fyi.Store.Post.{Post, bind-Post, succeeds-Post}
use tmpmail_fyi.Store.Pending.{remove_file, Unlinked, unlink_all}

pub find_file-delete_file :
    (path key : Bytes) (files : List File)
    → find_file key (delete_file path files)
      ≡ (if eq_bytes path key then none else find_file key files)
unfolding find_file delete_file
find_file-delete_file path key [] = ground arith
find_file-delete_file path key (f ∷ files) = ground (
  arith,
  find_file-delete_file path key files,
  eq_bytes_iff f.path path,
  eq_bytes_iff f.path key,
  eq_bytes_iff path key,
)

-- Files outside a list are as they were.
abbrev pub Untouched : List PendingFile → Store → Store → Type 0
Untouched queue s t =
    (path : Bytes) → is_pending path queue ≡ false → find_file path t.files ≡ find_file path s.files

abbrev pub OnlyFiles : Store → Store → Type 0
OnlyFiles s t = t ≡ record s { files = t.files }

abbrev pub Never : Error → Store → Type 0
Never e t = ⊥

abbrev pub unlinked_file : Bool → Bytes → Store → Store
unlinked_file gone path s = if gone then record s { files = delete_file path s.files } else s

unlinked_file-Untouched :
    (gone : Bool) (p : PendingFile) (queue : List PendingFile) (s t : Store)
    → Untouched queue (unlinked_file gone p.path s) t
    → Untouched (p ∷ queue) s t
unfolding is_pending
unlinked_file-Untouched true p queue s t u path h =
    ground (arith, u path, find_file-delete_file p.path path s.files)
unlinked_file-Untouched false p queue s t u path h = ground (arith, u path)

unlinked_file-OnlyFiles :
    (gone : Bool) (path : Bytes) (s t : Store)
    → OnlyFiles (unlinked_file gone path s) t
    → OnlyFiles s t
unlinked_file-OnlyFiles true path s t o = o
unlinked_file-OnlyFiles false path s t o = o

pub remove_file-Post :
    (path : Bytes) (s : Store) (w : Schedule)
    → Post (λ gone t. t ≡ unlinked_file gone path s) Never (remove_file path s w)
unfolding remove_file
remove_file-Post path s w =
    succeeds-Post (λ gone t. t ≡ unlinked_file gone path s) Never _ s w λ gone v. refl

abbrev add_removed : Bool → PendingFile → Unlinked → Unlinked
add_removed gone p rest =
    if gone
    then record rest { removed = p ∷ rest.removed }
    else record rest { error = some external }

add_removed-Within :
    (gone : Bool) (p : PendingFile) (files : List PendingFile) (rest : Unlinked)
    → Within files rest.removed
    → Within (p ∷ files) (add_removed gone p rest).removed
add_removed-Within true p files rest i = Within-keep p i
add_removed-Within false p files rest i = Within-skip p i

add_removed-Real :
    (gone : Bool) (p : PendingFile) (rest : Unlinked)
    → RealOption rest.error
    → RealOption (add_removed gone p rest).error
add_removed-Real true p rest real = real
add_removed-Real false p rest real = tt

abbrev pub Unlinks : List PendingFile → Store → Unlinked → Store → Type 0
Unlinks files s u t =
    Within files u.removed × OnlyFiles s t × Untouched files s t × RealOption u.error

pub unlink_all-Unlinks :
    (files : List PendingFile) (s : Store) (w : Schedule)
    → Post (Unlinks files s) Never (unlink_all files s w)
unfolding unlink_all
unlink_all-Unlinks [] s w = (Within-nil, refl, (λ path h. refl), tt)
unlink_all-Unlinks (p ∷ files) s w =
    bind-Post (λ gone t. t ≡ unlinked_file gone p.path s) Never Never (Unlinks (p ∷ files) s)
      (remove_file p.path) _ s w (remove_file-Post p.path s w) (λ e t h. h)
      λ gone t w₁ same.
        subst
          (λ t.
            Post (Unlinks (p ∷ files) s) Never
              ((unlink_all files >>= (λ rest. pure (add_removed gone p rest))) t w₁))
          (sym same)
          (bind-Post (Unlinks files (unlinked_file gone p.path s)) Never Never
            (Unlinks (p ∷ files) s) (unlink_all files) _ (unlinked_file gone p.path s) w₁
            (unlink_all-Unlinks files (unlinked_file gone p.path s) w₁) (λ e t h. h)
            λ rest t w₂ (i, only, u, real). (
              add_removed-Within gone p files rest i,
              unlinked_file-OnlyFiles gone p.path s t only,
              unlinked_file-Untouched gone p files s t u,
              add_removed-Real gone p rest real,
            ))
