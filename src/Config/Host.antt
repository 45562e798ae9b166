-- ===== src/Config/Host.antt =====
-- Certificate host names: normalizeTLSHost of internal/app/autotls.go. golang.org/x/net/idna and
-- net.ParseIP are parameters.
pub mod Names
use tmpmail_fyi.Common.{
  ltb, leb, ◌==◌, if◌then◌else◌, length, all, Bytes, to_lower, trim_space, contains_byte, split, ℕ,
  Bool, false, not, ◌&&◌, ◌||◌, Option, none, some, [], ◌∷◌,
}

pub record HostLibrary : Type 0 where
  pub to_ascii : Bytes → Option Bytes
  pub is_ip : Bytes → Bool

-- strings.TrimSuffix(host, ".").
abbrev pub trim_dot : Bytes → Bytes
trim_dot [] = []
trim_dot (c ∷ s) =
    let rest = trim_dot s in elim s [ [] ↦ if c == b'.' then [] else c ∷ [] | _ ∷ _ ↦ c ∷ rest ]

abbrev pub is_host_byte : ℕ → Bool
is_host_byte c = (leb b'a' c && leb c b'z') || (leb b'0' c && leb c b'9') || (c == b'-')

abbrev first_is_dash : Bytes → Bool
first_is_dash [] = false
first_is_dash (c ∷ s) = c == b'-'

abbrev last_is_dash : Bytes → Bool
last_is_dash [] = false
last_is_dash (c ∷ s) = let rest = last_is_dash s in elim s [ [] ↦ c == b'-' | _ ∷ _ ↦ rest ]

unfoldable pub is_label : Bytes → Bool
is_label label =
    not ((length label == 0) || ltb 63 (length label) || first_is_dash label || last_is_dash label)
    && all is_host_byte label

abbrev pub is_refused : HostLibrary → Bytes → Bool
is_refused lib ascii = lib.is_ip ascii || not (contains_byte b'.' ascii) || ltb 253 (length ascii)

-- The checks on what ToASCII returns.
abbrev pub accept_host : HostLibrary → Option Bytes → Option Bytes
accept_host lib none = none
accept_host lib (some ascii) =
    if is_refused lib ascii
    then none
    else if all is_label (split b'.' ascii)
    then some ascii
    else none

unfoldable pub normalize_tls_host : HostLibrary → Bytes → Option Bytes
unfolding trim_space split is_label
normalize_tls_host lib host = accept_host lib (lib.to_ascii (trim_dot (to_lower (trim_space host))))
