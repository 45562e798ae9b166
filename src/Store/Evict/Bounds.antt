-- ===== src/Store/Evict/Bounds.antt =====
-- The loop of evictTx: it ends, within the cap, and touches nothing that it need not.
use tmpmail_fyi.Common.{
  Bool-cases, length, Bytes, eq_bytes, eq_bytes_iff, ℤ, ◌+ℤ◌, ◌-ℤ◌, ltb_ℤ, pos, negsuc, ℕ, zero,
  suc, ◌+◌, ◌<◌, ◌≡◌, refl, sym, ap, ◌∙◌, inl, inr, Bool, true, false, none, some, arith,
}
use tmpmail_fyi.Config.{Config}
use tmpmail_fyi.Store.State.{Row, Blob, Db, Store, CleanupStats, no_stats, Schedule, M}
use tmpmail_fyi.Store.Tables.{find_blob, find_row, is_pending, blob_bytes, pending_bytes}
use tmpmail_fyi.Store.Tables.Rows.{find_row-delete_row, length-delete_row}
use tmpmail_fyi.Store.Post.{Post, bind-Post, weaken-Post, step-Post}
use tmpmail_fyi.Store.Valid.{WellFormed, OnlyDb, OnlyDb-trans, OnlyDbError}
use tmpmail_fyi.Store.Evict.{
  delete_message, oldest_expired, Choice, choose, count_removed, evict_loop, evict_tx,
}
use tmpmail_fyi.Store.Evict.Deletion.{Deleted, delete_message-Post}
use tmpmail_fyi.Store.Evict.Oldest.{
  find_row_of_Holds, IsOldest, choose-Post, oldest_expired-delete_row,
}

abbrev pub removed_rows : CleanupStats → ℕ
removed_rows stats = stats.expired + stats.evicted

abbrev pub released_bytes : CleanupStats → ℕ
released_bytes stats = stats.expired_bytes + stats.evicted_bytes

-- No blob but the protected one has the path.
abbrev pub IsApart : Bytes → Bytes → Db → Type 0
IsApart protected path db =
    (k : Bytes) (b : Blob)
    → find_blob k db.blobs ≡ some b
    → eq_bytes k protected ≡ false
    → eq_bytes b.path path ≡ false

-- What the removal of rows by evictTx keeps: the tables stay well-formed, the counters say how many
-- rows left and how many bytes moved to the queue, no row of the protected blob leaves, that blob
-- is as it was, no path is queued but those of other blobs, no row appears, and a row is evicted
-- before its expiry only when no other row has expired.
pub record Evicted (before : ℕ) (protected : Bytes) (db : Db) (stats : CleanupStats) (freed : ℕ)
    (after : Db) (stats' : CleanupStats) : Type 0 where
  pub tables : WellFormed after
  pub rows : length db.messages + removed_rows stats ≡ length after.messages + removed_rows stats'
  pub bytes : blob_bytes db.blobs ≡ blob_bytes after.blobs + freed
  pub queue : pending_bytes after.pending ≡ pending_bytes db.pending + freed
  pub counted : released_bytes stats' ≡ released_bytes stats + freed
  pub kept :
      (id : Bytes) (row : Row)
      → find_row id db.messages ≡ some row
      → eq_bytes row.blob_id protected ≡ true
      → find_row id after.messages ≡ some row
  pub unqueued :
      (path : Bytes)
      → IsApart protected path db
      → is_pending path db.pending ≡ false
      → is_pending path after.pending ≡ false
  pub protected_blob : find_blob protected after.blobs ≡ find_blob protected db.blobs
  pub subset :
      (id : Bytes) (row : Row)
      → find_row id after.messages ≡ some row
      → find_row id db.messages ≡ some row
  pub still :
      oldest_expired before protected db.messages ≡ none
      → oldest_expired before protected after.messages ≡ none
  pub forced :
      stats.evicted < stats'.evicted → oldest_expired before protected after.messages ≡ none

sub_sub : (z : ℤ) (a b : ℕ) → (z -ℤ pos a) -ℤ pos b ≡ z -ℤ pos (a + b)
sub_sub (pos n) a b = ground arith
sub_sub (negsuc n) a b = ground arith

sub_zero : (z : ℤ) → z -ℤ pos 0 ≡ z
sub_zero (pos n) = ground arith
sub_zero (negsuc n) = ground arith

module _ (before : ℕ) (protected : Bytes) where
  stop-Evicted :
      (db : Db) (stats : CleanupStats)
      → WellFormed db
      → Evicted before protected db stats 0 db stats
  stop-Evicted db stats v = record {
    tables = v;
    rows = refl;
    bytes = omega arith;
    queue = omega arith;
    counted = omega arith;
    kept = λ id row h e. h;
    unqueued = λ path apart free. free;
    protected_blob = refl;
    subset = λ id row h. h;
    still = λ h. h;
    forced = λ h. absurd (omega arith);
  }

  -- One round, then the rest.
  round-Evicted :
      (db mid after : Db) (c : Choice) (stats stats' : CleanupStats) (released freed : ℕ)
      → WellFormed db
      → IsOldest before protected db.messages c
      → Deleted c.row.id db released mid
      → Evicted before protected mid (count_removed c.expired released stats) freed after stats'
      → Evicted before protected db stats (released + freed) after stats'
  round-Evicted db mid after c stats stats' released freed v o d r =
      let found : find_row c.row.id db.messages ≡ some c.row =
        find_row_of_Holds c.row db.messages v.rows_unique o.present in
      let left : length db.messages ≡ length mid.messages + 1 =
        length-delete_row c.row.id c.row db.messages v.rows_unique found
        ∙ ap (λ rows. length rows + 1) (sym d.rows) in
      let ran_out : oldest_expired before protected db.messages ≡ none
          → oldest_expired before protected after.messages ≡ none =
        λ h.
          r.still (rw d.rows (oldest_expired-delete_row before protected c.row.id db.messages h)) in
      record {
        tables = r.tables;
        rows = elim (Bool-cases c.expired) [
          | inl e ↦ omega (arith, rw e at r.rows)
          | inr e ↦ omega (arith, rw e at r.rows)
        ];
        bytes = omega (arith, d.bytes, r.bytes);
        queue = omega (arith, d.queue, r.queue);
        counted = elim (Bool-cases c.expired) [
          | inl e ↦ omega (arith, rw e at r.counted)
          | inr e ↦ omega (arith, rw e at r.counted)
        ];
        kept = λ id row h e.
            r.kept id row
              (ground (
                arith,
                d.rows,
                find_row-delete_row c.row.id id db.messages,
                eq_bytes_iff c.row.id id,
                found,
                o.other,
              ))
              e;
        unqueued = λ path apart free.
            let (b, held, queued) = d.queued c.row found in
            r.unqueued path
              (λ k x h other.
                let (y, before, same) = d.paths k x h in rw (← same) (apart k y before other))
              (queued path (apart c.row.blob_id b held o.other) free);
        protected_blob = r.protected_blob ∙ d.spared c.row protected found o.other;
        subset = λ id row h.
            ground (arith, r.subset id row h, d.rows, find_row-delete_row c.row.id id db.messages);
        still = ran_out;
        forced = λ h. elim (Bool-cases c.expired) [
          | inl e ↦ r.forced (rw e h)
          | inr e ↦ ran_out (o.none_expired e)
        ];
      }

module _ (max_bytes before : ℕ) (protected : Bytes) where
  -- The cap holds for the projected usage, less what was freed.
  abbrev pub Fitted : Store → CleanupStats → ℤ → CleanupStats → Store → Type 0
  Fitted s stats projected stats' t =
      (freed : ℕ) × Evicted before protected s.db stats freed t.db stats'
      × (ltb_ℤ (pos max_bytes) (projected -ℤ pos freed) ≡ false)
      × OnlyDb s t

  round-Fitted :
      (c : Choice) (s t : Store) (stats : CleanupStats) (projected : ℤ) (released : ℕ)
      (m : M CleanupStats) (w : Schedule)
      → WellFormed s.db
      → IsOldest before protected s.db.messages c
      → Deleted c.row.id s.db released t.db
      → OnlyDb s t
      → Post
          (Fitted t (count_removed c.expired released stats) (projected -ℤ pos released))
          (OnlyDbError t)
          (m t w)
      → Post (Fitted s stats projected) (OnlyDbError s) (m t w)
  round-Fitted c s t stats projected released m w v o d only rest =
      weaken-Post (Fitted t (count_removed c.expired released stats) (projected -ℤ pos released))
        (Fitted s stats projected) (OnlyDbError t) (OnlyDbError s) m t w rest
        (λ stats' u (freed, r, fits, only'). (
          released + freed,
          round-Evicted before protected s.db t.db u.db c stats stats' released freed v o d r,
          rw (← sub_sub projected released freed) fits,
          OnlyDb-trans s t u only only',
        ))
        (λ e u (real, only'). (real, OnlyDb-trans s t u only only'))

  -- With more rounds than rows the loop ends by its test or by an error of the program, whatever
  -- calls fail.
  pub evict_loop-Fitted :
      (fuel : ℕ) (projected : ℤ) (remain : Bool) (stats : CleanupStats) (s : Store) (w : Schedule)
      → length s.db.messages < fuel
      → WellFormed s.db
      → (remain ≡ false → oldest_expired before protected s.db.messages ≡ none)
      → Post
          (Fitted s stats projected)
          (OnlyDbError s)
          (evict_loop max_bytes before protected fuel projected remain stats s w)
  unfolding evict_loop
  evict_loop-Fitted zero projected remain stats s w h v over = absurd (omega arith)
  evict_loop-Fitted (suc fuel) projected remain stats s w h v over =
      elim (Bool-cases (ltb_ℤ (pos max_bytes) projected)) [
        | inr fits ↦
            rw (fits, evict_loop)
              (0, stop-Evicted before protected s.db stats v, rw (sub_zero projected) fits, refl)
        | inl over_cap ↦
            rw (over_cap, evict_loop)
              (step-Post s (IsOldest before protected s.db.messages) (OnlyDbError s)
                (Fitted s stats projected) (choose before protected remain) _ s w
                (choose-Post before protected s remain w over)
                λ c w₁ o.
                  let found : find_row c.row.id s.db.messages ≡ some c.row =
                    find_row_of_Holds c.row s.db.messages v.rows_unique o.present in
                  bind-Post (λ released t. Deleted c.row.id s.db released t.db × OnlyDb s t)
                    (OnlyDbError s) (OnlyDbError s) (Fitted s stats projected)
                    (delete_message c.row.id c.row.blob_id) _ s w₁
                    (delete_message-Post c.row.id c.row s w₁ v found) (λ e t k. k)
                    λ released t w₂ (d, only).
                      round-Fitted c s t stats projected released
                        (evict_loop max_bytes before protected fuel (projected -ℤ pos released)
                          c.expired (count_removed c.expired released stats))
                        w₂ v o d only
                        (evict_loop-Fitted fuel (projected -ℤ pos released) c.expired
                          (count_removed c.expired released stats) t w₂
                          (omega (
                            arith,
                            length-delete_row c.row.id c.row s.db.messages v.rows_unique found,
                            ap length d.rows,
                          ))
                          d.tables
                          λ e. rw d.rows (
                            oldest_expired-delete_row before protected c.row.id s.db.messages
                              (o.none_expired e))))
      ]

-- From well-formed tables, whatever calls fail: evictTx ends with no error but the program's and
-- changes nothing outside the database; on success the projected usage less the bytes freed is within
-- the cap, the bytes freed moved from the blobs to the queue and are those counted, the tables are
-- well-formed, no row of the protected blob is gone, that blob is as it was, and no row is new.
pub evict_tx-Fitted :
    (cfg : Config) (before : ℕ) (protected : Bytes) (added : ℕ) (s : Store) (w : Schedule)
    → WellFormed s.db
    → Post
        (Fitted cfg.max_storage_bytes before protected s no_stats (s.stored_bytes +ℤ pos added))
        (OnlyDbError s)
        (evict_tx cfg before protected added s w)
unfolding evict_tx
evict_tx-Fitted cfg before protected added s w v =
    evict_loop-Fitted cfg.max_storage_bytes before protected (suc (length s.db.messages))
      (s.stored_bytes +ℤ pos added) true no_stats s w (omega arith) v (λ e. cc)
