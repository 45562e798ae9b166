-- ===== src/Store/State.antt =====
-- The state of the store, and the monad of its operations. SQLite, the file system, the clock and
-- the random source are not under test: each call of one of them takes the next entry of a
-- schedule, which says whether the call succeeds (it does when the schedule has run out). What a
-- call does on success is written out in the operations.
use tmpmail_fyi.Common.{Bytes, ℤ, ℕ, Bool, true, false, Option, none, some, List, [], ◌∷◌}

-- A row of the table messages, with times in seconds.
pub record Row : Type 0 where
  pub id : Bytes
  pub recipient : Bytes
  pub sender : Bytes
  pub subject : Bytes
  pub received_at : ℕ
  pub expires_at : ℕ
  pub size : ℕ
  pub blob_id : Bytes

-- A row of the table blobs.
pub record Blob : Type 0 where
  pub id : Bytes
  pub path : Bytes
  pub size : ℕ
  pub ref_count : ℕ

-- A row of the table pending_deletions.
pub record PendingFile : Type 0 where
  pub path : Bytes
  pub size : ℕ

-- The rows of messages stand in the order of their rowids, those of pending_deletions in the order
-- of their key.
pub record Db : Type 0 where
  pub messages : List Row
  pub blobs : List Blob
  pub pending : List PendingFile

-- A file of the message directory.
pub record File : Type 0 where
  pub path : Bytes
  pub content : Bytes

pub record Store : Type 0 where
  pub db : Db
  pub files : List File
  pub stored_bytes : ℤ
  pub stored_messages : ℤ
  pub storage_fault : Bool
  pub pending_cursor : Bytes
  pub cleanup_error_count : ℕ
  pub last_cleanup : Option ℕ

-- The rows that a cleanup removed and the bytes of blobs that it released.
pub record CleanupStats : Type 0 where
  pub expired : ℕ
  pub expired_bytes : ℕ
  pub evicted : ℕ
  pub evicted_bytes : ℕ

abbrev pub no_stats : CleanupStats
no_stats = record { expired = 0; expired_bytes = 0; evicted = 0; evicted_bytes = 0 }

pub data Error : Type 0 where
  no_recipients : Error
  message_too_large : Error
  storage_too_small : Error
  recovery_required : Error
  above_limit : Error
  pending_exhausted : Error
  limit_exhausted : Error
  no_rows : Error
  constraint : Error
  external : Error
  out_of_fuel : Error

-- The error is one of the program, not of the model's bound on rounds.
abbrev pub IsReal : Error → Type 0
IsReal out_of_fuel = ⊥
IsReal _ = Unit

abbrev pub RealOption : Option Error → Type 0
RealOption none = Unit
RealOption (some e) = IsReal e

abbrev pub Schedule : Type 0
Schedule = List Bool

pub data Outcome {ℓ} (A : Type ℓ) : Type ℓ where
  done : A → Store → Schedule → Outcome A
  failed : Error → Store → Schedule → Outcome A

abbrev pub M {ℓ} : Type ℓ → Type ℓ
M A = Store → Schedule → Outcome A

infixl 5 ◌>>=◌ ◌>>◌
abbrev pub ◌>>=◌ {ℓ κ} : {A : Type ℓ} {B : Type κ} → M A → (A → M B) → M B
◌>>=◌ m f s w = elim (m s w) [ done a t v ↦ f a t v | failed e t v ↦ failed e t v ]

abbrev pub ◌>>◌ {ℓ κ} : {A : Type ℓ} {B : Type κ} → M A → M B → M B
m >> k = m >>= λ _. k

abbrev pub pure {ℓ} : {A : Type ℓ} → A → M A
pure a s w = done a s w

abbrev pub fail {ℓ} : {A : Type ℓ} → Error → M A
fail e s w = failed e s w

abbrev pub get : M Store
get s w = done s s w

abbrev pub modify : (Store → Store) → M (Unit {0})
modify f s w = done tt (f s) w

abbrev pub modify_db : (Db → Db) → M (Unit {0})
modify_db f = modify λ s. record s { db = f s.db }

abbrev pub guard : Bool → Error → M (Unit {0})
guard true e = pure tt
guard false e = fail e

abbrev pub or_fail {ℓ} : {A : Type ℓ} → Option A → Error → M A
or_fail none e = fail e
or_fail (some a) e = pure a

-- One call of SQLite or of the file system.
unfoldable pub succeeds : M Bool
succeeds s [] = done true s []
succeeds s (b ∷ w) = done b s w

unfoldable pub attempt : M (Unit {0})
unfolding succeeds
attempt = do b ← succeeds; guard b external

-- An error as a value, for a caller that goes on after it.
pub data Try {ℓ} (A : Type ℓ) : Type ℓ where
  good : A → Try A
  bad : Error → Try A

unfoldable pub tried {ℓ} : {A : Type ℓ} → Outcome A → Outcome (Try A)
tried (done a t v) = done (good a) t v
tried (failed e t v) = done (bad e) t v

unfoldable pub try {ℓ} : {A : Type ℓ} → M A → M (Try A)
unfolding tried
try m s w = tried (m s w)

-- (s *Store) inTx: the database is as before, unless the body and the commit succeed.
unfoldable pub rolled_back {ℓ} : {A : Type ℓ} → Db → Outcome A → Outcome A
rolled_back db (done a t v) = done a t v
rolled_back db (failed e t v) = failed e (record t { db = db }) v

unfoldable pub in_tx {ℓ} : {A : Type ℓ} → M A → M A
unfolding rolled_back attempt
in_tx body = do attempt; λ s w. rolled_back s.db ((do a ← body; attempt; pure a) s w)
