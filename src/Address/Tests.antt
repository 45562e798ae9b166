-- ===== src/Address/Tests.antt =====
-- The address functions at concrete addresses.
use tmpmail_fyi.Common.{
  ltb, Bytes, codes, eq_bytes, last_index, equal_fold, ◌≡◌, refl, ◌≢◌, Bool, true, ◌&&◌, [], ◌∷◌,
  ◌++◌, arith,
}
use tmpmail_fyi.Address.{normalize_recipient, accepts}
use tmpmail_fyi.Address.Laws.{
  IsAscii, normalize_recipient_idem, accepts-normalize_recipient, normalize_recipient_of_accepts,
}

abbrev home : Bytes
home = codes "mail.test"

abbrev shouted : Bytes
shouted = codes "Bob@b@MAIL.Test"

abbrev is_ascii : Bytes → Bool
is_ascii [] = true
is_ascii (c ∷ s) = ltb c 128 && is_ascii s

is_ascii-IsAscii : (s : Bytes) → is_ascii s ≡ true → IsAscii s
is_ascii-IsAscii [] h = tt
is_ascii-IsAscii (c ∷ s) h = (ground arith, is_ascii-IsAscii s (ground arith))

home-IsAscii : IsAscii home
home-IsAscii = is_ascii-IsAscii home refl

shouted-IsAscii : IsAscii shouted
shouted-IsAscii = is_ascii-IsAscii shouted refl

normalize_recipient_idem_example :
    normalize_recipient (normalize_recipient shouted) ≡ normalize_recipient shouted
normalize_recipient_idem_example = normalize_recipient_idem shouted

accepts-normalize_recipient_example :
    accepts home (normalize_recipient shouted) ≡ accepts home shouted
accepts-normalize_recipient_example =
    accepts-normalize_recipient home shouted home-IsAscii shouted-IsAscii

accepts-shouted : accepts home shouted ≡ true
unfolding accepts last_index equal_fold eq_bytes
accepts-shouted = refl

normalize_recipient_of_accepts_example :
    (user : Bytes) × (domain : Bytes) × (user ≢ [])
    × (shouted ≡ user ++ b'@' ∷ domain)
    × (normalize_recipient shouted ≡ user ++ b'@' ∷ home)
normalize_recipient_of_accepts_example =
    normalize_recipient_of_accepts home shouted home-IsAscii shouted-IsAscii refl accepts-shouted
