-- ===== src/Config/Load/Ports.antt =====
-- The ports of the listeners: the end of LoadConfig of internal/app/config.go.
use tmpmail_fyi.Common.{
  leb, ◌==◌, if◌then◌else◌, Bytes, codes, ℤ, pos, ℕ, ◌&&◌, Option, none, some, List, [], ◌∷◌, ◌++◌,
}
use tmpmail_fyi.Config.Load.Values.{ConfigLibrary, Loaded, ◌>>=◌, parsed, accepted, refused}

pub record Address : Type 0 where
  pub name : Bytes
  pub addr : Bytes

-- A number in the range of ports.
abbrev port_range : Option ℤ → Option ℕ
port_range (some (pos n)) = if leb 1 n && leb n 65535 then some n else none
port_range _ = none

abbrev port_from : ConfigLibrary → Option Bytes → Option ℕ
port_from lib none = none
port_from lib (some text) = port_range (lib.parse_int text)

unfoldable pub port_of : ConfigLibrary → Bytes → Option ℕ
port_of lib addr = port_from lib (lib.split_port addr)

-- The map of the ports that were met, with the name of each.
abbrev pub PortMap : Type 0
PortMap = List (ℕ × Bytes)

unfoldable pub lookup_port : ℕ → PortMap → Option Bytes
lookup_port n [] = none
lookup_port n ((m, name) ∷ ports) = if m == n then some name else lookup_port n ports

unfoldable pub check_ports : ConfigLibrary → PortMap → List Address → Loaded (Unit {0})
unfolding port_of lookup_port
check_ports lib ports [] = accepted tt
check_ports lib ports (a ∷ addresses) = do
  n ← parsed (a.name ++ codes " must contain a valid numeric TCP port") (port_of lib a.addr)
  elim (lookup_port n ports) [
    | some previous ↦ refused (a.name ++ codes " and " ++ previous ++ codes " use the same port")
    | none ↦ check_ports lib ((n, a.name) ∷ ports) addresses
  ]
