-- ===== src/Common/Order.antt =====
-- The order of texts by bytes, which SQLite uses for a TEXT key.
use mathlib.Core.Path.{◌≡◌, refl}
use mathlib.Core.Bool.{Bool, true, false, ◌&&◌, ◌||◌}
use mathlib.Core.List.{[], ◌∷◌}
use native.Mathlib.Omega.{arith}
use tmpmail_fyi.Common.Tests.{ltb, ◌==◌}
use tmpmail_fyi.Common.Text.{Bytes, eq_bytes}

unfoldable pub lt_bytes : Bytes → Bytes → Bool
lt_bytes s [] = false
lt_bytes [] (b ∷ t) = true
lt_bytes (a ∷ s) (b ∷ t) = ltb a b || ((a == b) && lt_bytes s t)

pub lt_bytes_irrefl : (s : Bytes) → lt_bytes s s ≡ false
unfolding lt_bytes
lt_bytes_irrefl [] = refl
lt_bytes_irrefl (a ∷ s) = ground (arith, lt_bytes_irrefl s)

pub lt_bytes_trans :
    (s t u : Bytes) → lt_bytes s t ≡ true → lt_bytes t u ≡ true → lt_bytes s u ≡ true
unfolding lt_bytes
lt_bytes_trans s t [] h k = cc
lt_bytes_trans s [] (c ∷ u) h k = cc
lt_bytes_trans [] (b ∷ t) (c ∷ u) h k = refl
lt_bytes_trans (a ∷ s) (b ∷ t) (c ∷ u) h k = ground (arith, lt_bytes_trans s t u)

pub lt_bytes-total :
    (s t : Bytes) → lt_bytes s t ≡ false → eq_bytes s t ≡ false → lt_bytes t s ≡ true
unfolding lt_bytes eq_bytes
lt_bytes-total [] [] h k = cc
lt_bytes-total (a ∷ s) [] h k = refl
lt_bytes-total [] (b ∷ t) h k = cc
lt_bytes-total (a ∷ s) (b ∷ t) h k = ground (arith, lt_bytes-total s t)
