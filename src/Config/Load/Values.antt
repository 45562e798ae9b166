-- ===== src/Config/Load/Values.antt =====
-- Single settings: env, positiveInt, positiveFloat, nonNegativeInt, parseHTTPLogHeaders and
-- validHeaderName of internal/app/config.go. The header in an error stands without the quotes of %q.
use tmpmail_fyi.Common.{
  if◌then◌else◌, any, all, Bytes, codes, eq_bytes, trim_space, contains_byte, split, ℤ, pos, negsuc,
  ℕ, zero, suc, Bool, true, false, not, Option, none, some, List, [], ◌∷◌, ◌++◌,
}
use tmpmail_fyi.Config.Host.{HostLibrary}

-- A number that does not parse is `none`. `is_positive` reads a float64, and tests that it is not
-- zero or less.
pub record ConfigLibrary : Type 0 where
  pub parse_bool : Bytes → Option Bool
  pub parse_duration : Bytes → Option ℤ
  pub parse_int : Bytes → Option ℤ
  pub is_positive : Bytes → Option Bool
  pub canonical_header_key : Bytes → Bytes
  pub split_port : Bytes → Option Bytes
  pub join : Bytes → Bytes → Bytes
  pub hosts : HostLibrary

pub data Loaded {ℓ} (A : Type ℓ) : Type ℓ where
  accepted : A → Loaded A
  refused : Bytes → Loaded A

infixl 5 ◌>>=◌
unfoldable pub ◌>>=◌ {ℓ κ} : {A : Type ℓ} {B : Type κ} → Loaded A → (A → Loaded B) → Loaded B
m >>= f = elim m [ accepted a ↦ f a | refused e ↦ refused e ]

infixl 5 ◌>>◌
abbrev pub ◌>>◌ {ℓ κ} : {A : Type ℓ} {B : Type κ} → Loaded A → Loaded B → Loaded B
m >> n = m >>= λ _. n

-- An early return.
unfoldable pub refuse_if : Bool → Bytes → Loaded (Unit {0})
refuse_if true message = refused message
refuse_if false message = accepted tt

unfoldable pub env : (Bytes → Bytes) → Bytes → Bytes → Bytes
env getenv key fallback = let value = getenv key in if eq_bytes value [] then fallback else value

unfoldable pub parsed {ℓ} : {A : Type ℓ} → Bytes → Option A → Loaded A
parsed message none = refused message
parsed message (some a) = accepted a

unfoldable pub switch : ConfigLibrary → (Bytes → Bytes) → Bytes → Bytes → Loaded Bool
switch lib getenv key fallback =
    parsed (key ++ codes " must be a boolean") (lib.parse_bool (env getenv key fallback))

-- The numbers above zero.
unfoldable pub above_zero : Bytes → Option ℤ → Loaded ℕ
above_zero message none = refused message
above_zero message (some (negsuc n)) = refused message
above_zero message (some (pos zero)) = refused message
above_zero message (some (pos (suc n))) = accepted (suc n)

unfoldable pub positive_int : ConfigLibrary → (Bytes → Bytes) → Bytes → Bytes → Loaded ℕ
positive_int lib getenv key fallback =
    above_zero (key ++ codes ": must be a positive integer")
      (lib.parse_int (env getenv key fallback))

unfoldable pub from_zero : Bytes → Option ℤ → Loaded ℕ
from_zero message none = refused message
from_zero message (some (negsuc n)) = refused message
from_zero message (some (pos n)) = accepted n

unfoldable pub non_negative_int : ConfigLibrary → (Bytes → Bytes) → Bytes → Bytes → Loaded ℕ
non_negative_int lib getenv key fallback =
    from_zero (key ++ codes ": must be a non-negative integer")
      (lib.parse_int (env getenv key fallback))

unfoldable pub float_read : Bytes → Bytes → Option Bool → Loaded Bytes
float_read message value (some true) = accepted value
float_read message value _ = refused message

unfoldable pub positive_float : ConfigLibrary → (Bytes → Bytes) → Bytes → Bytes → Loaded Bytes
positive_float lib getenv key fallback =
    let value = env getenv key fallback in
    float_read (key ++ codes ": must be a positive number") value (lib.is_positive value)

abbrev pub header_bytes : Bytes
header_bytes = codes "!#$%&'*+-.^_`|~0123456789ABCDEFGHIJKLMNOPQRSTUVWXYZabcdefghijklmnopqrstuvwxyz"

unfoldable pub valid_header_name : Bytes → Bool
valid_header_name [] = false
valid_header_name (c ∷ name) = all (λ b. contains_byte b header_bytes) (c ∷ name)

abbrev pub has_header : Bytes → List Bytes → Bool
has_header header headers = any (eq_bytes header) headers

-- The loop over the parts, with the headers that were seen.
unfoldable pub collect_headers : ConfigLibrary → List Bytes → List Bytes → Loaded (List Bytes)
unfolding valid_header_name trim_space eq_bytes
collect_headers lib headers [] = accepted headers
collect_headers lib headers (part ∷ parts) =
    let header = trim_space part in
    let canonical = lib.canonical_header_key header in
    let next =
      collect_headers lib
        (if has_header canonical headers then headers else headers ++ canonical ∷ []) parts in
    if not (valid_header_name header)
    then refused (header ++ codes " is not a valid HTTP header name")
    else next

unfoldable pub parse_http_log_headers : ConfigLibrary → Bytes → Loaded (List Bytes)
unfolding collect_headers split
parse_http_log_headers lib value = collect_headers lib [] (split b',' value)
