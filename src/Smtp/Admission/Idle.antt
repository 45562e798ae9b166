-- ===== src/Smtp/Admission/Idle.antt =====
-- The server when no connection is open.
use tmpmail_fyi.Common.{Bytes, eq_bytes_refl, ℕ, ◌≤◌, ◌≡◌, refl, ◌∙◌, List, [], ◌∷◌, arith}
use tmpmail_fyi.Config.{Config}
use tmpmail_fyi.Smtp.Admission.{Conn, Sources, source_count, Event, run, new_admission}
use tmpmail_fyi.Smtp.Admission.Sources.{}
use tmpmail_fyi.Smtp.Admission.Limits.{open_conns, open_from, Positive, run-new_admission-Balanced}

open_from-le_open_conns : (k : Bytes) (conns : List Conn) → open_from k conns ≤ open_conns conns
unfolding open_from open_conns
open_from-le_open_conns k [] = omega arith
open_from-le_open_conns k (c ∷ conns) = ground (arith, open_from-le_open_conns k conns)

source_count_head : (k : Bytes) (n : ℕ) (s : Sources) → source_count k ((k, n) ∷ s) ≡ n
unfolding source_count
source_count_head k n s = rw (eq_bytes_refl k) refl

Positive-nil : (s : Sources) → Positive s → ((k : Bytes) → source_count k s ≡ 0) → s ≡ []
Positive-nil [] h empty = refl
Positive-nil ((k, n) ∷ s) (p, h) empty = absurd (omega (arith, source_count_head k n s, empty k))

-- After any sequence of events that leaves no connection open, every session token is back and the
-- map of sources has no entry.
pub run-idle :
    (cfg : Config) (events : List Event)
    → open_conns (run events (new_admission cfg)).conns ≡ 0
    → ((run events (new_admission cfg)).sessions ≡ 0)
      × ((run events (new_admission cfg)).sources ≡ [])
run-idle cfg events idle =
    let a = run events (new_admission cfg) in
    let b = run-new_admission-Balanced cfg events in
    (
      b.sessions_counted ∙ idle,
      Positive-nil a.sources b.positive
          λ k. omega (arith, b.sources_counted k, open_from-le_open_conns k a.conns),
    )
