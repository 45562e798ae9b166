-- ===== src/Address.antt =====
-- Recipient addresses: internal/app/smtp.go, normalizeRecipient, containsRecipient and accepts.
-- strings.ToLower and strings.EqualFold are those of ASCII text: letters beyond it, which they also
-- fold, are left as they are here.
pub mod Laws
pub mod Tests
use tmpmail_fyi.Common.{
  ltb, if◌then◌else◌, take, drop, Bytes, eq_bytes, last_index, to_lower, equal_fold, ◌+◌, Bool,
  true, false, ◌&&◌, none, some, List, [], ◌∷◌, ◌++◌,
}

-- The domain in lower case, the local part as it is.
unfoldable pub normalize_recipient : Bytes → Bytes
normalize_recipient address = elim (last_index b'@' address) [
  | some at ↦ take (at + 1) address ++ to_lower (drop (at + 1) address)
  | none ↦ address
]

unfoldable pub contains_recipient : List Bytes → Bytes → Bool
contains_recipient [] address = false
contains_recipient (r ∷ recipients) address =
    if eq_bytes r address then true else contains_recipient recipients address

-- A non-empty local part, and the configured domain up to case.
unfoldable pub accepts : Bytes → Bytes → Bool
accepts mail_domain address = elim (last_index b'@' address) [
  | some at ↦ ltb 0 at && equal_fold (drop (at + 1) address) mail_domain
  | none ↦ false
]
