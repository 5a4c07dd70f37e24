-- ===== src/Http/Tests.antt =====
-- The HTTP transport with two slots, on a few requests.
use mathlib.Core.Path.{subst}
use talos_mcp_server.Common.{
  ℕ, zero, suc, ◌+◌, ◌-◌, ◌≤◌, ◌<◌, ◌≡◌, refl, sym, ◌⊎◌, inl, inr, Bool, true, false, Option, none,
  some, List, [], ◌∷◌, ◌++◌, arith, ltb, if◌then◌else◌, Option-cases, Text, codes, drop, All,
}
use talos_mcp_server.Text.{text_eq, has_prefix}
use talos_mcp_server.Http.{
  Request, Reply, Stack, Outcome, replied, serving, is_post, token_verifier, rate_limit, chain,
  http_mux, Http, Event, arrive, end, admit, step, run, new_http, to_healthz, to_root, server_busy,
  post, unauthorized,
}
use talos_mcp_server.Http.Slots.{Authorized}
use talos_mcp_server.Http.Admission.{post_admission}
use talos_mcp_server.Http.Requests.{posts, run-Bounded, unauthorized_unserved}

abbrev tokens : ℕ → ℕ → Bool × ℕ
tokens now zero = (false, 0)
tokens now (suc l) = (true, l)

abbrev Counter : Type 0
Counter = ℕ × ℕ

abbrev take_slot : Counter → Option Counter
take_slot (size, held) = if ltb held size then some (size, held + 1) else none

abbrev put_slot : Counter → Counter
put_slot (size, held) = (size, held - 1)

taken : (s t : Counter) → take_slot s ≡ some t → (t.0 ≡ s.0) × (t.1 ≡ s.1 + 1) × (s.1 < s.0)
taken (size, held) (size', held') e = ground arith

all_taken : (s : Counter) → take_slot s ≡ none → s.0 ≤ s.1
all_taken (size, held) e = ground arith

put_back : (s : Counter) → 0 < s.1 → ((put_slot s).0 ≡ s.0) × ((put_slot s).1 + 1 ≡ s.1)
put_back (size, held) l = (refl, omega arith)

abbrev bearer : Text → Option Text
bearer h = if has_prefix h (codes "Bearer ") then some (drop 7 h) else none

abbrev check_expiry : ℕ → Option ℕ → Option Reply
check_expiry now none = some unauthorized
check_expiry now (some e) = if ltb now e then none else some unauthorized

abbrev check_token : ℕ → (Text → Option ℕ) → Option Text → Option Reply
check_token now verify none = some unauthorized
check_token now verify (some t) = check_expiry now (verify t)

abbrev check_header : ℕ → (Text → Option ℕ) → Option Text → Option Reply
check_header now verify none = some unauthorized
check_header now verify (some h) = check_token now verify (bearer h)

check-none :
    (now : ℕ) (verify : Text → Option ℕ) (header : Option Text)
    → check_header now verify header ≡ none
    → (h t : Text) × (expires : ℕ) × (header ≡ some h)
      × (bearer h ≡ some t)
      × (verify t ≡ some expires)
check-none now verify none e = cc
check-none now verify (some h) e = elim (Option-cases (bearer h)) [
  | inl b ↦ let f = (rw b at e) in cc
  | inr (t, b) ↦ elim (Option-cases (verify t)) [
    | inl v ↦ let f = (rw (b, v) at e) in cc
    | inr (x, v) ↦ (h, t, x, refl, b, v)
  ]
]

check-some :
    (now expires : ℕ) (verify : Text → Option ℕ) (header : Option Text) (h t : Text)
    → header ≡ some h
    → bearer h ≡ some t
    → verify t ≡ some expires
    → now < expires
    → check_header now verify header ≡ none
check-some now expires verify header h t a b v l = rw (a, b, v) (ground arith)

abbrev sample_stack : Stack
sample_stack = record {
  Limiter = ℕ;
  allow = tokens;
  Semaphore = Counter;
  new_weighted = λ n. (n, 0);
  try_acquire = take_slot;
  release = put_slot;
  size = λ s. s.0;
  held = λ s. s.1;
  fresh = λ n. (refl, refl);
  acquired = taken;
  exhausted = all_taken;
  released = put_back;
  route = λ r. if text_eq r.path (codes "/healthz") then to_healthz else to_root;
  bearer_token = bearer;
  check_bearer = λ now verify r. check_header now verify r.authorization;
  check_bearer-none = λ now verify r. check-none now verify r.authorization;
  check_bearer-some = λ now expires verify r. check-some now expires verify r.authorization;
}

abbrev request : Text → Request
request token = record {
  method = post;
  path = codes "/";
  authorization = some (codes "Bearer " ++ token);
  body_limit = none;
}

-- Three requests with the token, one of which ends, and one without.
abbrev events : List Event
events =
    arrive 0 true (request (codes "t"))
    ∷ arrive 1 true (request (codes "t"))
    ∷ end 1
    ∷ arrive 2 true (request (codes "u"))
    ∷ []

abbrev state : Http sample_stack
state = run sample_stack (codes "t") 100 events (new_http sample_stack 9 2)

state_value : state ≡ record {
  transport = record { limiter = 6; sem = (2, 1) };
  in_flight =
      record { request = record (request (codes "t")) { body_limit = some 100 }; slot = true } ∷ [];
}
unfolding run step http_mux chain admit new_http rate_limit text_eq has_prefix token_verifier
state_value = refl

run-Bounded_example :
    All
      (λ s.
        Authorized sample_stack (codes "t") 100 s.request
        × (is_post s.request.method ≡ true → s.request.body_limit ≡ some 100))
      state.in_flight
    × (state.transport.sem.1 ≡ posts state.in_flight)
    × (posts state.in_flight ≤ 2)
run-Bounded_example = run-Bounded sample_stack (codes "t") 100 2 9 events

wrong_token : ¬ Authorized sample_stack (codes "t") 100 (request (codes "u"))
unfolding has_prefix
wrong_token (h, e, b) =
    let same : codes "Bearer u" ≡ h = cc in
    let found : bearer (codes "Bearer u") ≡ some (codes "t") =
      subst (λ x. bearer x ≡ some (codes "t")) (sym same) b in
    ground arith

unauthorized_unserved_example :
    ((a : Reply) × ((http_mux sample_stack
          (codes "t")
          100
          3
          true
          (request (codes "u"))
          state.transport).0
        ≡ replied a))
    × ((step sample_stack (codes "t") 100 (arrive 3 true (request (codes "u"))) state).in_flight
        ≡ state.in_flight)
    × ((step sample_stack (codes "t") 100 (arrive 3 true (request (codes "u"))) state).transport.sem
        ≡ state.transport.sem)
unauthorized_unserved_example =
    unauthorized_unserved sample_stack (codes "t") 100 2 state 3 true (request (codes "u"))
      wrong_token

abbrev admission : Outcome
admission = (http_mux sample_stack (codes "t") 100 3 true (request (codes "t")) state.transport).0

post_admission_example :
    ((posts state.in_flight < 2)
      × (admission
          ≡ serving (record {
            request = record (request (codes "t")) { body_limit = some 100 };
            slot = true;
          })))
    ⊎ ((2 ≤ posts state.in_flight) × (admission ≡ replied server_busy))
unfolding run step http_mux chain admit new_http text_eq has_prefix token_verifier
post_admission_example =
    post_admission sample_stack (codes "t") 100 2 9 events 3 true (request (codes "t"))
      (codes "Bearer t") refl refl refl refl refl
