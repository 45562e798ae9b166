-- ===== src/Smtp/Admission.antt =====
-- Admission of connections: (l *smtpAdmissionListener) Accept, (c *admittedSMTPConn) Close,
-- scheduleRejection, acquireSource and releaseSource of internal/app/smtp.go. A channel of tokens is
-- the number of tokens in it, and the map of sources an association list.
pub mod Sources
pub mod Limits
pub mod Idle
use tmpmail_fyi.Common.{
  ltb, leb, ◌==◌, if◌then◌else◌, Bytes, eq_bytes, ℕ, ◌+◌, ◌-◌, Bool, true, false, ◌&&◌, Option,
  none, some, List, [], ◌∷◌,
}
use tmpmail_fyi.Config.{Config}

abbrev pub default_max_smtp_connections : ℕ
default_max_smtp_connections = 100

abbrev pub max_concurrent_smtp_rejections : ℕ
max_concurrent_smtp_rejections = 16

-- A connection that was admitted; `released` says that its sync.Once has run.
pub record Conn : Type 0 where
  pub id : ℕ
  pub source : Bytes
  pub released : Bool

abbrev pub Sources : Type 0
Sources = List (Bytes × ℕ)

pub record Admission : Type 0 where
  pub limit : ℕ
  pub max_per_ip : ℕ
  pub sessions : ℕ
  pub rejects : ℕ
  pub sources : Sources
  pub conns : List Conn

-- s.sources[source], which is 0 for a missing key.
unfoldable pub source_count : Bytes → Sources → ℕ
source_count key [] = 0
source_count key ((source, n) ∷ sources) =
    if eq_bytes source key then n else source_count key sources

-- s.sources[source]++
unfoldable pub increment : Bytes → Sources → Sources
increment key [] = (key, 1) ∷ []
increment key ((source, n) ∷ sources) =
    if eq_bytes source key then (source, n + 1) ∷ sources else (source, n) ∷ increment key sources

-- s.sources[source]--
unfoldable pub decrement : Bytes → Sources → Sources
decrement key [] = []
decrement key ((source, n) ∷ sources) =
    if eq_bytes source key then (source, n - 1) ∷ sources else (source, n) ∷ decrement key sources

-- delete(s.sources, source)
unfoldable pub delete_source : Bytes → Sources → Sources
delete_source key [] = []
delete_source key ((source, n) ∷ sources) =
    let rest = delete_source key sources in if eq_bytes source key then rest else (source, n) ∷ rest

unfoldable pub at_source_limit : Bytes → Admission → Bool
unfolding source_count
at_source_limit source a = ltb 0 a.max_per_ip && leb a.max_per_ip (source_count source a.sources)

-- Whether the source may open another connection, counting it if so.
unfoldable pub acquire_source : Bytes → Admission → Option Admission
unfolding at_source_limit increment
acquire_source source a =
    if at_source_limit source a
    then none
    else some (record a { sources = increment source a.sources })

unfoldable pub release_source : Bytes → Sources → Sources
unfolding source_count delete_source decrement
release_source source sources =
    if leb (source_count source sources) 1
    then delete_source source sources
    else decrement source sources

-- A rejection takes a token for as long as its goroutine runs; without one the connection is closed
-- at once.
unfoldable pub schedule_rejection : Admission → Admission
schedule_rejection a =
    if ltb a.rejects max_concurrent_smtp_rejections then record a { rejects = a.rejects + 1 } else a

-- The goroutine ends; there is one for each token.
unfoldable pub finish_rejection : Admission → Admission
finish_rejection a = record a { rejects = a.rejects - 1 }

unfoldable pub admit_source : ℕ → Bytes → Admission → Option Admission → Admission
unfolding schedule_rejection
admit_source id source a (some b) = record b {
  sessions = b.sessions + 1;
  conns = record { id = id; source = source; released = false } ∷ b.conns;
}
admit_source id source a none = schedule_rejection a

-- A round of Accept: the token of a connection beyond its source's limit is taken and given back.
unfoldable pub accept : ℕ → Bytes → Admission → Admission
unfolding acquire_source admit_source schedule_rejection
accept id source a =
    if ltb a.sessions a.limit
    then admit_source id source a (acquire_source source a)
    else schedule_rejection a

unfoldable pub find_conn : ℕ → List Conn → Option Conn
find_conn id [] = none
find_conn id (c ∷ conns) = if c.id == id then some c else find_conn id conns

unfoldable pub mark_released : ℕ → List Conn → List Conn
mark_released id [] = []
mark_released id (c ∷ conns) =
    if c.id == id then record c { released = true } ∷ conns else c ∷ mark_released id conns

unfoldable pub release : Conn → Admission → Admission
unfolding release_source mark_released
release c a = record a {
  sessions = a.sessions - 1;
  sources = release_source c.source a.sources;
  conns = mark_released c.id a.conns;
}

unfoldable pub close_found : Option Conn → Admission → Admission
unfolding release
close_found none a = a
close_found (some c) a = if c.released then a else release c a

-- Close may be called many times.
unfoldable pub close : ℕ → Admission → Admission
unfolding find_conn close_found
close id a = close_found (find_conn id a.conns) a

-- What happens to the server, one at a time: the channels and the mutex order it.
pub data Event : Type 0 where
  accepted : ℕ → Bytes → Event
  closed : ℕ → Event
  rejection_ended : Event

unfoldable pub step : Event → Admission → Admission
unfolding accept close finish_rejection
step (accepted id source) a = accept id source a
step (closed id) a = close id a
step rejection_ended a = finish_rejection a

unfoldable pub run : List Event → Admission → Admission
unfolding step
run [] a = a
run (e ∷ events) a = run events (step e a)

unfoldable pub new_admission : Config → Admission
new_admission cfg = record {
  limit =
      if cfg.max_smtp_connections == 0
      then default_max_smtp_connections
      else cfg.max_smtp_connections;
  max_per_ip = cfg.max_smtp_connections_per_ip;
  sessions = 0;
  rejects = 0;
  sources = [];
  conns = [];
}
