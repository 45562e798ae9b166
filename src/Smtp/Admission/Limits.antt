-- ===== src/Smtp/Admission/Limits.antt =====
-- The counters of the server against the connections that are open.
use tmpmail_fyi.Common.{
  ltb, leb, Bool-cases, Option-cases, All, Bytes, eq_bytes, eq_bytes→eq, ℕ, ◌+◌, ◌-◌, ◌≤◌, ◌<◌, ◌≡◌,
  refl, sym, subst, inl, inr, false, not, ◌&&◌, some, List, [], ◌∷◌, arith,
}
use tmpmail_fyi.Config.{Config}
use tmpmail_fyi.Smtp.Admission.{
  max_concurrent_smtp_rejections, Conn, Sources, Admission, source_count, increment, decrement,
  delete_source, at_source_limit, acquire_source, release_source, schedule_rejection,
  finish_rejection, admit_source, accept, find_conn, mark_released, release, close_found, close,
  Event, step, run, new_admission, accepted, closed, rejection_ended,
}
use tmpmail_fyi.Smtp.Admission.Sources.{
  one_if, source_count-increment_same, source_count-increment_other, source_count-decrement_same,
  source_count-decrement_other, source_count-delete_same, source_count-delete_other,
}

unfoldable pub open_conns : List Conn → ℕ
open_conns [] = 0
open_conns (c ∷ conns) = one_if (not c.released) + open_conns conns

unfoldable pub open_from : Bytes → List Conn → ℕ
open_from key [] = 0
open_from key (c ∷ conns) = one_if (not c.released && eq_bytes c.source key) + open_from key conns

-- No count of the map is zero.
abbrev pub Positive : Sources → Type 0
Positive = All λ e. 0 < e.1

-- The counters are those of the open connections, and within the limits.
pub record Balanced (a : Admission) : Type 0 where
  pub sessions_counted : a.sessions ≡ open_conns a.conns
  pub sources_counted : (key : Bytes) → source_count key a.sources ≡ open_from key a.conns
  pub sessions_bounded : a.sessions ≤ a.limit
  pub sources_bounded : 0 < a.max_per_ip → (key : Bytes) → source_count key a.sources ≤ a.max_per_ip
  pub rejects_bounded : a.rejects ≤ max_concurrent_smtp_rejections
  pub positive : Positive a.sources

increment-Positive : (k : Bytes) (s : Sources) → Positive s → Positive (increment k s)
unfolding increment
increment-Positive k [] h = (omega arith, tt)
increment-Positive k ((x, n) ∷ s) (p, h) = elim (Bool-cases (eq_bytes x k)) [
  | inl e ↦ rw e (omega arith, h)
  | inr e ↦ rw e (p, increment-Positive k s h)
]

delete_source-Positive : (k : Bytes) (s : Sources) → Positive s → Positive (delete_source k s)
unfolding delete_source
delete_source-Positive k [] h = tt
delete_source-Positive k ((x, n) ∷ s) (p, h) = elim (Bool-cases (eq_bytes x k)) [
  | inl e ↦ rw e (delete_source-Positive k s h)
  | inr e ↦ rw e (p, delete_source-Positive k s h)
]

decrement-Positive :
    (k : Bytes) (s : Sources)
    → Positive s
    → leb (source_count k s) 1 ≡ false
    → Positive (decrement k s)
unfolding decrement source_count
decrement-Positive k [] h more = tt
decrement-Positive k ((x, n) ∷ s) (p, h) more = elim (Bool-cases (eq_bytes x k)) [
  | inl e ↦ rw e (ground arith, h)
  | inr e ↦ rw e (p, decrement-Positive k s h (ground arith))
]

release_source-Positive : (k : Bytes) (s : Sources) → Positive s → Positive (release_source k s)
unfolding release_source
release_source-Positive k s h = elim (Bool-cases (leb (source_count k s) 1)) [
  | inl e ↦ rw e (delete_source-Positive k s h)
  | inr e ↦ rw e (decrement-Positive k s h e)
]

-- A release takes one from the count of its source.
source_count-release_source :
    (j k : Bytes) (s : Sources)
    → source_count k (release_source j s) ≡ source_count k s - one_if (eq_bytes j k)
unfolding release_source
source_count-release_source j k s = elim (Bool-cases (eq_bytes j k)) [
  | inl h ↦
      rw (h, ← eq_bytes→eq j k h)
        (ground (arith, source_count-delete_same j s, source_count-decrement_same j s))
  | inr h ↦ ground (arith, source_count-delete_other j k s h, source_count-decrement_other j k s h)
]

find_conn-id : (id : ℕ) (conns : List Conn) (c : Conn) → find_conn id conns ≡ some c → c.id ≡ id
unfolding find_conn
find_conn-id id [] c h = cc
find_conn-id id (d ∷ conns) c h = ground (arith, find_conn-id id conns c)

-- The connection that is released was one of the open ones.
open_conns-mark_released :
    (id : ℕ) (conns : List Conn) (c : Conn)
    → find_conn id conns ≡ some c
    → c.released ≡ false
    → open_conns conns ≡ open_conns (mark_released id conns) + 1
unfolding find_conn mark_released open_conns
open_conns-mark_released id [] c h live = cc
open_conns-mark_released id (d ∷ conns) c h live =
    ground (arith, open_conns-mark_released id conns c)

open_from-mark_released :
    (id : ℕ) (k : Bytes) (conns : List Conn) (c : Conn)
    → find_conn id conns ≡ some c
    → c.released ≡ false
    → open_from k conns ≡ open_from k (mark_released id conns) + one_if (eq_bytes c.source k)
unfolding find_conn mark_released open_from
open_from-mark_released id k [] c h live = cc
open_from-mark_released id k (d ∷ conns) c h live =
    ground (arith, open_from-mark_released id k conns c)

-- Nothing but the queue of rejections changes.
schedule_rejection-Balanced : (a : Admission) → Balanced a → Balanced (schedule_rejection a)
unfolding schedule_rejection
schedule_rejection-Balanced a b = elim (Bool-cases (ltb a.rejects max_concurrent_smtp_rejections)) [
  | inl e ↦ rw e (record {
    sessions_counted = b.sessions_counted;
    sources_counted = b.sources_counted;
    sessions_bounded = b.sessions_bounded;
    sources_bounded = b.sources_bounded;
    rejects_bounded = ground arith;
    positive = b.positive;
  })
  | inr e ↦ rw e b
]

finish_rejection-Balanced : (a : Admission) → Balanced a → Balanced (finish_rejection a)
unfolding finish_rejection
finish_rejection-Balanced a b = record {
  sessions_counted = b.sessions_counted;
  sources_counted = b.sources_counted;
  sessions_bounded = b.sessions_bounded;
  sources_bounded = b.sources_bounded;
  rejects_bounded = omega (arith, b.rejects_bounded);
  positive = b.positive;
}

admitted-counted :
    (source k : Bytes) (a : Admission)
    → source_count k a.sources ≡ open_from k a.conns
    → source_count k (increment source a.sources) ≡ one_if (eq_bytes source k) + open_from k a.conns
admitted-counted source k a h = elim (Bool-cases (eq_bytes source k)) [
  | inl e ↦
      subst
        (λ j.
          source_count k (increment j a.sources) ≡ one_if (eq_bytes source k) + open_from k a.conns)
        (sym (eq_bytes→eq source k e))
        (rw e (omega (arith, source_count-increment_same k a.sources)))
  | inr e ↦ rw e (omega (arith, source_count-increment_other source k a.sources e))
]

admitted-bounded :
    (source k : Bytes) (a : Admission)
    → at_source_limit source a ≡ false
    → 0 < a.max_per_ip
    → source_count k a.sources ≤ a.max_per_ip
    → source_count k (increment source a.sources) ≤ a.max_per_ip
unfolding at_source_limit
admitted-bounded source k a free limited h = elim (Bool-cases (eq_bytes source k)) [
  | inl e ↦
      rw (← eq_bytes→eq source k e, source_count-increment_same source a.sources) (ground arith)
  | inr e ↦ rw (source_count-increment_other source k a.sources e) h
]

accept-Balanced :
    (id : ℕ) (source : Bytes) (a : Admission) → Balanced a → Balanced (accept id source a)
unfolding accept acquire_source admit_source open_conns open_from
accept-Balanced id source a b = elim (Bool-cases (ltb a.sessions a.limit)) [
  | inr e ↦ rw e (schedule_rejection-Balanced a b)
  | inl e ↦ elim (Bool-cases (at_source_limit source a)) [
    | inl f ↦ rw (e, f, admit_source) (schedule_rejection-Balanced a b)
    | inr f ↦
        rw (e, f, admit_source)
          (record {
            sessions_counted = omega (arith, b.sessions_counted);
            sources_counted = λ key. admitted-counted source key a (b.sources_counted key);
            sessions_bounded = ground arith;
            sources_bounded = λ l key. admitted-bounded source key a f l (b.sources_bounded l key);
            rejects_bounded = b.rejects_bounded;
            positive = increment-Positive source a.sources b.positive;
          })
  ]
]

release-Balanced :
    (id : ℕ) (c : Conn) (a : Admission)
    → find_conn id a.conns ≡ some c
    → c.released ≡ false
    → Balanced a
    → Balanced (release c a)
unfolding release release_source
release-Balanced id c a found live b =
    let same = find_conn-id id a.conns c found in
    let fewer = open_conns-mark_released id a.conns c found live in
    rw same (record {
      sessions_counted = omega (arith, b.sessions_counted);
      sources_counted = λ key. omega (
        arith,
        source_count-release_source c.source key a.sources,
        open_from-mark_released id key a.conns c found live,
        b.sources_counted key,
      );
      sessions_bounded = omega (arith, b.sessions_bounded);
      sources_bounded = λ l key.
          omega
            (arith, source_count-release_source c.source key a.sources, b.sources_bounded l key);
      rejects_bounded = b.rejects_bounded;
      positive = release_source-Positive c.source a.sources b.positive;
    })

close-Balanced : (id : ℕ) (a : Admission) → Balanced a → Balanced (close id a)
unfolding close close_found
close-Balanced id a b = elim (Option-cases (find_conn id a.conns)) [
  | inl e ↦ rw (e, close_found) b
  | inr (c, e) ↦ elim (Bool-cases c.released) [
    | inl r ↦ rw (e, close_found, r) b
    | inr r ↦ rw (e, close_found, r) (release-Balanced id c a e r b)
  ]
]

step-Balanced : (e : Event) (a : Admission) → Balanced a → Balanced (step e a)
unfolding step
step-Balanced (accepted id source) a b = accept-Balanced id source a b
step-Balanced (closed id) a b = close-Balanced id a b
step-Balanced rejection_ended a b = finish_rejection-Balanced a b

run-Balanced : (events : List Event) (a : Admission) → Balanced a → Balanced (run events a)
unfolding run
run-Balanced [] a b = b
run-Balanced (e ∷ events) a b = run-Balanced events (step e a) (step-Balanced e a b)

new_admission-Balanced : (cfg : Config) → Balanced (new_admission cfg)
unfolding new_admission source_count open_conns open_from
new_admission-Balanced cfg = record {
  sessions_counted = refl;
  sources_counted = λ key. refl;
  sessions_bounded = omega arith;
  sources_bounded = λ l key. omega arith;
  rejects_bounded = omega arith;
  positive = tt;
}

-- After any sequence of arrivals, closes (also repeated ones) and ends of rejections, the session
-- tokens are as many as the open connections and within the limit, the count of each source is that
-- of its open connections and within the limit for a source if there is one, at most 16 rejections
-- run, and no count of the map is zero.
pub run-new_admission-Balanced :
    (cfg : Config) (events : List Event) → Balanced (run events (new_admission cfg))
run-new_admission-Balanced cfg events =
    run-Balanced events (new_admission cfg) (new_admission-Balanced cfg)
