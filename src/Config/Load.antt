-- ===== src/Config/Load.antt =====
-- Loading the settings: LoadConfig of internal/app/config.go. An error is its text. The
-- environment, strconv, time.ParseDuration, net/http's CanonicalHeaderKey, net.SplitHostPort and
-- filepath.Join are parameters; the rate is kept as its text. Go visits the map of addresses in any
-- order, which only decides the error that is reported.
pub mod Values
pub mod Ports
pub mod Stages
pub mod Tls
pub mod Ensures
pub mod Distinct
pub mod Accepted
pub mod Valid
mod Tests
use tmpmail_fyi.Common.{Bytes}
use tmpmail_fyi.Config.{Config}
use tmpmail_fyi.Config.Load.Values.{ConfigLibrary, Loaded, ◌>>=◌, ◌>>◌, accepted}
use tmpmail_fyi.Config.Load.Ports.{}
use tmpmail_fyi.Config.Load.Stages.{load_counters, load_limits, load_files, load_http}
use tmpmail_fyi.Config.Load.Tls.{load_acme, load_hosts, assemble}

unfoldable pub load_config : ConfigLibrary → (Bytes → Bytes) → Loaded Config
load_config lib getenv = do
  counters ← load_counters lib getenv
  limits ← load_limits lib getenv
  files ← load_files getenv
  http ← load_http lib getenv
  acme ← load_acme lib getenv
  domains ← load_hosts lib getenv counters.admin_enabled files http.domain acme
  accepted (assemble lib getenv counters limits files http acme domains)
