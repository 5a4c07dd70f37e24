-- ===== src/Http.antt =====
-- The HTTP transport: cmd/talos-mcp/middleware.go, and buildTokenVerifier and buildHTTPMux of
-- cmd/talos-mcp/main.go. A handler either answers at once, or hands the request on to the MCP handler,
-- which is outside and answers later: requests overlap, as a sequence of arrivals and endings. The
-- rate limiter, the semaphore, the mux and the SDK's bearer check are the interface `Stack`.

pub mod Slots
pub mod Admission
pub mod Requests
pub mod Tests
use talos_mcp_server.Common.{
  ℕ, zero, suc, ◌+◌, ◌-◌, ◌*◌, ◌/◌, ◌%◌, ◌^◌, ◌≤◌, ◌<◌, ◌≡◌, refl, sym, ap, ◌∙◌, ◌≢◌, ◌↔◌, ◌⊎◌, inl,
  inr, Bool, true, false, not, ◌&&◌, ◌||◌, Option, none, some, List, [], ◌∷◌, ◌++◌, map, append-nil,
  append_assoc, arith, ltb, leb, ◌==◌, if◌then◌else◌, Bool-cases, if_cases, Option-cases, ◌>>=◌,
  is_ok, Result-cases, Text, codes, length, take, drop, length-append, is_empty, All, All-append,
  In, In-append_left, In-append_right, In-append_cases, Result, ok, err,
}
use talos_mcp_server.Text.{
  text_eq, text_eq_iff, text_eq_refl, has_prefix, after_prefix, trim_prefix, has_prefix-append,
  has_prefix_split, contains_byte, Lacks, contains_byte-Lacks, trim_left, trim_right, trim_space,
  to_lower, to_lower_idem,
}
use talos_mcp_server.Common.Lists.{get_elem?, remove_at}

pub data Method : Type 0 where
  get head post delete : Method
  other_method : Text → Method

pub record Request : Type 0 where
  pub method : Method
  pub path : Text
  pub authorization : Option Text
  -- the limit that http.MaxBytesReader puts on the body
  pub body_limit : Option ℕ

pub data Reply : Type 0 where
  healthy unhealthy method_not_allowed : Reply
  -- 429 and 503, with Retry-After
  rate_exceeded server_busy : Reply
  -- what the bearer check or the mux answers itself
  unauthorized redirected : Reply

pub data Route : Type 0 where
  to_healthz to_root redirect : Route

-- The packages that the chain is built from: x/time/rate, x/sync/semaphore, net/http's ServeMux, and
-- auth of the go-sdk.
pub record Stack : Type 1 where
  pub Limiter : Type 0
  -- Limiter.Allow at a time
  pub allow : ℕ → Limiter → Bool × Limiter
  pub Semaphore : Type 0
  pub new_weighted : ℕ → Semaphore
  -- TryAcquire(1), which leaves the semaphore alone when it fails, and Release(1)
  pub try_acquire : Semaphore → Option Semaphore
  pub release : Semaphore → Semaphore
  pub size : Semaphore → ℕ
  pub held : Semaphore → ℕ
  pub fresh : (n : ℕ) → (size (new_weighted n) ≡ n) × (held (new_weighted n) ≡ 0)
  pub acquired :
      (s t : Semaphore)
      → try_acquire s ≡ some t
      → (size t ≡ size s) × (held t ≡ held s + 1) × (held s < size s)
  pub exhausted : (s : Semaphore) → try_acquire s ≡ none → size s ≤ held s
  pub released :
      (s : Semaphore) → 0 < held s → (size (release s) ≡ size s) × (held (release s) + 1 ≡ held s)
  -- the mux, with the patterns /healthz and /
  pub route : Request → Route
  -- the token of an Authorization header
  pub bearer_token : Text → Option Text
  -- RequireBearerToken without options: `none` serves the request on. A verifier gives the time at
  -- which the token expires.
  pub check_bearer : ℕ → (Text → Option ℕ) → Request → Option Reply
  pub check_bearer-none :
      (now : ℕ) (verify : Text → Option ℕ) (r : Request)
      → check_bearer now verify r ≡ none
      → (h t : Text) × (expires : ℕ) × (r.authorization ≡ some h)
        × (bearer_token h ≡ some t)
        × (verify t ≡ some expires)
  pub check_bearer-some :
      (now expires : ℕ) (verify : Text → Option ℕ) (r : Request) (h t : Text)
      → r.authorization ≡ some h
      → bearer_token h ≡ some t
      → verify t ≡ some expires
      → now < expires
      → check_bearer now verify r ≡ none

abbrev pub is_post : Method → Bool
is_post post = true
is_post _ = false

-- 365 days, in nanoseconds
abbrev pub token_lifetime : ℕ
token_lifetime = 31536000000000000

-- The verifier: subtle.ConstantTimeCompare is 1 if the two texts are equal.
pub token_verifier : Text → ℕ → Text → Option ℕ
token_verifier token now incoming =
    if text_eq incoming token then some (now + token_lifetime) else none

-- A request that the MCP handler is serving, and whether its end releases a slot.
pub record Serving : Type 0 where
  pub request : Request
  pub slot : Bool

pub data Outcome : Type 0 where
  replied : Reply → Outcome
  serving : Serving → Outcome

pub data Event : Type 0 where
  arrive : ℕ → Bool → Request → Event
  -- the request at that place ends
  end : ℕ → Event

module _ (p : Stack) where
  open p use {Limiter, allow, Semaphore, new_weighted, try_acquire, release, route, check_bearer}

  pub record Transport : Type 0 where
    pub limiter : Limiter
    pub sem : Semaphore

  -- http.Handler: what becomes of a request now, and what it does to the transport
  abbrev pub Handler : Type 0
  Handler = Request → Transport → Outcome × Transport

  pub allowed_or : Bool × Limiter → Handler → Handler
  allowed_or (true, l) next r t = next r (record t { limiter = l })
  allowed_or (false, l) next r t = (replied rate_exceeded, record t { limiter = l })

  pub rate_limit : ℕ → Handler → Handler
  unfolding allowed_or
  rate_limit now next r t = allowed_or (allow now t.limiter) next r t

  pub limit_request_body : ℕ → Handler → Handler
  limit_request_body max_bytes next r t =
      next (if is_post r.method then record r { body_limit = some max_bytes } else r) t

  -- `defer sem.Release(1)`: at the end of the handler that it wraps
  pub releasing : Outcome × Transport → Outcome × Transport
  releasing (replied a, t) = (replied a, record t { sem = release t.sem })
  releasing (serving s, t) = (serving (record s { slot = true }), t)

  pub limit_concurrency : Handler → Handler
  unfolding releasing
  limit_concurrency next r t =
      if not (is_post r.method) then next r t else elim (try_acquire t.sem) [
        | none ↦ (replied server_busy, t)
        | some s ↦ releasing (next r (record t { sem = s }))
      ]

  pub require_bearer_token : ℕ → (Text → Option ℕ) → Handler → Handler
  require_bearer_token now verify next r t = elim (check_bearer now verify r) [
    | none ↦ next r t
    | some a ↦ (replied a, t)
  ]

  pub healthz : Bool → Handler
  healthz reachable r t = elim r.method [
    | get ↦ (replied (if reachable then healthy else unhealthy), t)
    | head ↦ (replied (if reachable then healthy else unhealthy), t)
    | _ ↦ (replied method_not_allowed, t)
  ]

  mcp_handler : Handler
  mcp_handler r t = (serving (record { request = r; slot = false }), t)

  -- The chain behind /, at a time.
  pub chain : Text → ℕ → ℕ → Handler
  unfolding rate_limit limit_request_body require_bearer_token limit_concurrency mcp_handler
  chain token max_body now = rate_limit now (
      limit_request_body max_body
        (require_bearer_token now (token_verifier token now) (limit_concurrency mcp_handler)))

  -- `reachable` is what the health probe finds.
  pub http_mux : Text → ℕ → ℕ → Bool → Handler
  unfolding chain healthz
  http_mux token max_body now reachable r t = elim (route r) [
    | to_healthz ↦ healthz reachable r t
    | to_root ↦ chain token max_body now r t
    | redirect ↦ (replied redirected, t)
  ]

  -- The server at work: the transport, and the requests that are being served.
  pub record Http : Type 0 where
    pub transport : Transport
    pub in_flight : List Serving

  pub ended : Option Serving → Transport → Transport
  ended none t = t
  ended (some s) t = if s.slot then record t { sem = release t.sem } else t

  pub admit : Outcome × Transport → List Serving → Http
  admit (replied a, t) active = record { transport = t; in_flight = active }
  admit (serving s, t) active = record { transport = t; in_flight = s ∷ active }

  pub step : Text → ℕ → Event → Http → Http
  unfolding http_mux ended admit
  step token max_body (arrive now reachable r) h =
      admit (http_mux token max_body now reachable r h.transport) h.in_flight
  step token max_body (end i) h = record {
    transport = ended (get_elem? h.in_flight i) h.transport;
    in_flight = remove_at h.in_flight i;
  }

  pub run : Text → ℕ → List Event → Http → Http
  unfolding step
  run token max_body [] h = h
  run token max_body (e ∷ es) h = run token max_body es (step token max_body e h)

  pub new_http : Limiter → ℕ → Http
  new_http limiter max_concurrent = record {
    transport = record { limiter = limiter; sem = new_weighted max_concurrent };
    in_flight = [];
  }
