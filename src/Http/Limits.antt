-- ===== src/Http/Limits.antt =====
-- limitHTTPRequests of internal/app/http.go, and rateLimitPerIP, resolvedClientIP and firstHeaderValue
-- of internal/app/ratelimit.go. net.ParseIP, with the text of its result, net.SplitHostPort and
-- net.JoinHostPort are parameters; the limiter below is tollbooth's, keyed on the remote address.
use tmpmail_fyi.Common.{
  ltb, ◌==◌, if◌then◌else◌, Bool-cases, length, Bytes, codes, eq_bytes, trim_space, cut_before, ℕ,
  zero, suc, ◌+◌, ◌-◌, ◌≤◌, ◌≡◌, refl, subst, ◌≢◌, inl, inr, Bool, true, false, ◌&&◌, ◌||◌, Option,
  none, some, List, [], ◌∷◌, arith,
}

pub record AddressLibrary : Type 0 where
  pub parse_ip : Bytes → Option Bytes
  pub split_host : Bytes → Option Bytes
  pub join_port : Bytes → Bytes

pub record Request : Type 0 where
  pub method : Bytes
  pub path : Bytes
  pub remote_addr : Bytes
  pub header : Bytes → Bytes

unfoldable pub first_header_value : Bytes → Bytes
unfolding cut_before trim_space
first_header_value value = trim_space (cut_before b',' value)

abbrev or_whole : Bytes → Option Bytes → Bytes
or_whole addr none = addr
or_whole addr (some host) = host

abbrev or_empty : Option Bytes → Bytes
or_empty none = []
or_empty (some ip) = ip

abbrev or_peer : Bytes → Option Bytes → Bytes
or_peer peer none = peer
or_peer peer (some ip) = ip

abbrev pub is_probe : Request → Bool
is_probe r =
    eq_bytes r.path (codes "/healthz")
    && (eq_bytes r.method (codes "GET") || eq_bytes r.method (codes "HEAD"))

module _ (lib : AddressLibrary) where
  abbrev pub peer_ip : Bytes → Bytes
  peer_ip addr = or_empty (lib.parse_ip (or_whole addr (lib.split_host addr)))

  unfoldable pub resolved_client_ip : Bytes → Request → Bytes
  unfolding first_header_value
  resolved_client_ip [] r = peer_ip r.remote_addr
  resolved_client_ip (c ∷ ip_header) r =
      or_peer (peer_ip r.remote_addr) (lib.parse_ip (first_header_value (r.header (c ∷ ip_header))))

  abbrev readdressed : Request → Bytes → Request
  readdressed r [] = r
  readdressed r (c ∷ ip) = record r { remote_addr = lib.join_port (c ∷ ip) }

  -- The request that the limiter sees, if it sees it.
  unfoldable pub rate_limit_per_ip : Bytes → Request → Option Request
  unfolding resolved_client_ip eq_bytes
  rate_limit_per_ip ip_header r =
      if is_probe r then none else some (readdressed r (resolved_client_ip ip_header r))

  abbrev addr_of : Option Request → Option Bytes
  addr_of none = none
  addr_of (some q) = some q.remote_addr

  -- The bucket of a request, `none` for a probe.
  abbrev pub bucket : Bytes → Request → Option Bytes
  bucket ip_header r = addr_of (rate_limit_per_ip ip_header r)

  -- A request that is no probe, whose header for the client's address holds no address first, and
  -- whose peer has the address `ip`.
  pub record IsFromPeer (ip_header : Bytes) (r : Request) (ip : Bytes) : Type 0 where
    pub host : Bytes
    pub counted : is_probe r ≡ false
    pub unnamed : lib.parse_ip (first_header_value (r.header ip_header)) ≡ none
    pub split : lib.split_host r.remote_addr ≡ some host
    pub parsed : lib.parse_ip host ≡ some ip
    pub present : ip ≢ []

-- The tokens of the channel, the requests that the next handler serves, and those that were answered
-- with "service temporarily overloaded".
pub record HttpAdmission : Type 0 where
  pub limit : ℕ
  pub tokens : ℕ
  pub running : List ℕ
  pub rejected : List ℕ

pub data HttpEvent : Type 0 where
  arrives : ℕ → HttpEvent
  ends : ℕ → HttpEvent

abbrev pub holds : ℕ → List ℕ → Bool
holds id [] = false
holds id (x ∷ ids) = x == id || holds id ids

abbrev pub leave : ℕ → List ℕ → List ℕ
leave id [] = []
leave id (x ∷ ids) = let rest = leave id ids in if x == id then ids else x ∷ rest

-- Without a limit every request is served, and there are no tokens.
unfoldable pub http_step : HttpEvent → HttpAdmission → HttpAdmission
http_step (arrives id) a =
    if a.limit == 0
    then record a { running = id ∷ a.running }
    else if ltb a.tokens a.limit
    then record a { tokens = a.tokens + 1; running = id ∷ a.running }
    else record a { rejected = id ∷ a.rejected }
http_step (ends id) a =
    if holds id a.running
    then record a {
      tokens = if a.limit == 0 then a.tokens else a.tokens - 1;
      running = leave id a.running;
    }
    else a

unfoldable pub http_run : List HttpEvent → HttpAdmission → HttpAdmission
unfolding http_step
http_run [] a = a
http_run (e ∷ events) a = http_run events (http_step e a)

-- With the limit 0 no request is rejected; with another, each running request holds one token, and at
-- most as many run as the limit says.
abbrev pub Admits : ℕ → HttpAdmission → Type 0
Admits zero a = a.rejected ≡ []
Admits (suc n) a = (a.tokens ≡ length a.running) × (length a.running ≤ suc n)

abbrev pub IsAdmitting : ℕ → HttpAdmission → Type 0
IsAdmitting limit a = (a.limit ≡ limit) × Admits limit a

length-leave :
    (id : ℕ) (ids : List ℕ) → holds id ids ≡ true → length (leave id ids) + 1 ≡ length ids
length-leave id [] h = absurd cc
length-leave id (x ∷ ids) h = elim (Bool-cases (x == id)) [
  | inl e ↦ rw e (omega arith)
  | inr e ↦ rw e (omega (arith, length-leave id ids (subst (λ b. (b || holds id ids) ≡ true) e h)))
]

http_step-IsAdmitting :
    (limit : ℕ) (e : HttpEvent) (a : HttpAdmission)
    → IsAdmitting limit a
    → IsAdmitting limit (http_step e a)
unfolding http_step
http_step-IsAdmitting zero (arrives id) a (same, v) =
    let unlimited : a.limit == 0 ≡ true = rw same refl in rw (unlimited, http_step) (same, v)
http_step-IsAdmitting zero (ends id) a (same, v) = elim (Bool-cases (holds id a.running)) [
  | inl e ↦ rw (e, http_step) (same, v)
  | inr e ↦ rw (e, http_step) (same, v)
]
http_step-IsAdmitting (suc n) (arrives id) a (same, v) =
    let limited : a.limit == 0 ≡ false = ground (arith, same) in
    elim (Bool-cases (ltb a.tokens a.limit)) [
      | inl e ↦
          rw (limited, e, http_step) (same, (omega (arith, v.0), ground (arith, e, same, v.0, v.1)))
      | inr e ↦ rw (limited, e, http_step) (same, v)
    ]
http_step-IsAdmitting (suc n) (ends id) a (same, v) =
    let limited : a.limit == 0 ≡ false = ground (arith, same) in
    elim (Bool-cases (holds id a.running)) [
      | inl e ↦
          let left = length-leave id a.running e in
          rw (e, limited, http_step) (same, (omega (arith, v.0, left), omega (arith, v.1, left)))
      | inr e ↦ rw (e, http_step) (same, v)
    ]

http_run-keeps :
    (limit : ℕ) (events : List HttpEvent) (a : HttpAdmission)
    → IsAdmitting limit a
    → IsAdmitting limit (http_run events a)
unfolding http_run
http_run-keeps limit [] a v = v
http_run-keeps limit (e ∷ events) a v =
    http_run-keeps limit events (http_step e a) (http_step-IsAdmitting limit e a v)

abbrev pub fresh_http : ℕ → HttpAdmission
fresh_http limit = record { limit = limit; tokens = 0; running = []; rejected = [] }

fresh_http-Admits : (limit : ℕ) → Admits limit (fresh_http limit)
fresh_http-Admits zero = refl
fresh_http-Admits (suc n) = (refl, omega arith)

-- After any arrivals and ends of requests: with the limit 0 no request was rejected; with a limit
-- above 0 each running request holds one token and no other does, and at most as many run as the
-- limit.
pub http_run-IsAdmitting :
    (limit : ℕ) (events : List HttpEvent) → IsAdmitting limit (http_run events (fresh_http limit))
http_run-IsAdmitting limit events =
    http_run-keeps limit events (fresh_http limit) (refl, fresh_http-Admits limit)
