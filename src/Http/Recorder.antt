-- ===== src/Http/Recorder.antt =====
-- The responseRecorder and the status that requestLogger reports: internal/app/http.go. The writer
-- below, which is net/http's, is the list of the calls that it gets.
use tmpmail_fyi.Common.{
  ltb, ◌==◌, if◌then◌else◌, Bool-cases, all, All, ℕ, ◌+◌, ◌≤◌, ◌<◌, ◌≡◌, refl, sym, ap, inl, inr,
  false, List, [], ◌∷◌, ◌++◌, arith,
}

pub record ResponseRecorder : Type 0 where
  pub status : ℕ
  pub bytes : ℕ

-- A call of a response writer: a status, or a body of which the writer below takes some bytes.
pub data Call : Type 0 where
  header_written : ℕ → Call
  body_written : ℕ → Call

-- The recorder after some calls, and the calls that it made of the writer below.
pub record Forwarded : Type 0 where
  pub recorder : ResponseRecorder
  pub calls : List Call

unfoldable pub write_header : ℕ → ResponseRecorder → Forwarded
write_header status r =
    if r.status == 0
    then record { recorder = record r { status = status }; calls = header_written status ∷ [] }
    else record { recorder = r; calls = [] }

unfoldable pub write_body : ℕ → ResponseRecorder → Forwarded
write_body n r = record {
  recorder = record { status = if r.status == 0 then 200 else r.status; bytes = r.bytes + n };
  calls = body_written n ∷ [];
}

abbrev before_calls : List Call → Forwarded → Forwarded
before_calls calls f = record f { calls = calls ++ f.calls }

unfoldable pub serve : List Call → ResponseRecorder → Forwarded
unfolding write_header write_body
serve [] r = record { recorder = r; calls = [] }
serve (header_written status ∷ calls) r =
    let f = write_header status r in before_calls f.calls (serve calls f.recorder)
serve (body_written n ∷ calls) r =
    let f = write_body n r in before_calls f.calls (serve calls f.recorder)

unfoldable pub logged_status : ResponseRecorder → ℕ
logged_status r = if r.status == 0 then 200 else r.status

abbrev pub fresh_recorder : ResponseRecorder
fresh_recorder = record { status = 0; bytes = 0 }

-- A status that is not of an informational response, which net/http sends in addition.
abbrev pub IsFinal : Call → Type 0
IsFinal (header_written status) = 200 ≤ status
IsFinal (body_written n) = Unit

-- The status that a writer of net/http sends for its calls: the first final one, and 200 if a body or
-- the end comes first.
abbrev pub sent_status : List Call → ℕ
sent_status [] = 200
sent_status (header_written status ∷ calls) =
    let rest = sent_status calls in if ltb status 200 then rest else status
sent_status (body_written n ∷ calls) = 200

abbrev pub bodies : List Call → List ℕ
bodies [] = []
bodies (header_written status ∷ calls) = bodies calls
bodies (body_written n ∷ calls) = n ∷ bodies calls

abbrev pub total : List ℕ → ℕ
total [] = 0
total (n ∷ ns) = n + total ns

-- What the log and the metrics get of the calls of a handler.
pub record IsReported (calls : List Call) (f : Forwarded) : Type 0 where
  pub same_status : sent_status f.calls ≡ sent_status calls
  pub status_logged : logged_status f.recorder ≡ sent_status f.calls
  pub same_bodies : bodies f.calls ≡ bodies calls
  pub bytes_counted : f.recorder.bytes ≡ total (bodies f.calls)

write_header-decided :
    (status : ℕ) (r : ResponseRecorder)
    → 0 < r.status
    → write_header status r ≡ record { recorder = r; calls = [] }
unfolding write_header
write_header-decided status r h = let set : r.status == 0 ≡ false = ground arith in rw set refl

serve-bodies :
    (calls : List Call) (r : ResponseRecorder)
    → (bodies (serve calls r).calls ≡ bodies calls)
      × ((serve calls r).recorder.bytes ≡ r.bytes + total (bodies calls))
unfolding serve write_header write_body
serve-bodies [] r = (refl, omega arith)
serve-bodies (header_written status ∷ calls) r = elim (Bool-cases (r.status == 0)) [
  | inl e ↦ rw (e, serve, write_header) (serve-bodies calls (record r { status = status }))
  | inr e ↦ rw (e, serve, write_header) (serve-bodies calls r)
]
serve-bodies (body_written n ∷ calls) r =
    let (same, counted) = serve-bodies calls (write_body n r).recorder in
    (ap (◌∷◌ n) same, omega (arith, counted))

serve-decided :
    (calls : List Call) (r : ResponseRecorder)
    → 0 < r.status
    → (serve calls r).recorder.status ≡ r.status
unfolding serve write_body
serve-decided [] r h = refl
serve-decided (header_written status ∷ calls) r h =
    rw (serve, write_header-decided status r h) (serve-decided calls r h)
serve-decided (body_written n ∷ calls) r h =
    let set : r.status == 0 ≡ false = ground arith in
    rw (serve, write_body, set)
      (serve-decided calls (record { status = r.status; bytes = r.bytes + n }) h)

serve-status :
    (calls : List Call) (n : ℕ)
    → All IsFinal calls
    → let f = serve calls (record { status = 0; bytes = n }) in
      (sent_status f.calls ≡ sent_status calls) × (logged_status f.recorder ≡ sent_status f.calls)
unfolding serve write_header write_body logged_status
serve-status [] n h = (refl, refl)
serve-status (header_written status ∷ calls) n (final, h) =
    let r : ResponseRecorder = record { status = status; bytes = n } in
    let kept = serve-decided calls r (omega (arith, final)) in
    let not_informational : ltb status 200 ≡ false = ground arith in
    let set : status == 0 ≡ false = ground arith in rw (not_informational, kept, set) (refl, refl)
serve-status (body_written k ∷ calls) n (_, h) =
    let r : ResponseRecorder = record { status = 200; bytes = n + k } in
    rw (serve-decided calls r (omega arith)) (refl, refl)

-- For a handler that writes no informational status: the writer below gets calls for which it sends
-- the status that it would send for the handler's own calls, and all bodies in order; the log and the
-- metrics get that status, and the number of bytes that the writer below took of the bodies.
pub serve-sent :
    (calls : List Call) → All IsFinal calls → IsReported calls (serve calls fresh_recorder)
serve-sent calls h =
    let (same, logged) = serve-status calls 0 h in
    let (all, counted) = serve-bodies calls fresh_recorder in
    record {
      same_status = same;
      status_logged = logged;
      same_bodies = all;
      bytes_counted = omega (arith, counted, ap total (sym all));
    }
