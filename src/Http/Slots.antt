-- ===== src/Http/Slots.antt =====
-- What the chain of the HTTP transport keeps: who is served, and the slots of the semaphore.
use talos_mcp_server.Common.{
  ℕ, zero, suc, ◌+◌, ◌≡◌, refl, sym, ap, ◌⊎◌, inl, inr, Bool, true, false, none, some, List, [],
  ◌∷◌, arith, if◌then◌else◌, Bool-cases, Option-cases, Text, All,
}
use mathlib.Core.Path.{subst}
use talos_mcp_server.Text.{text_eq, text_eq_iff}
use talos_mcp_server.Common.Lists.{get_elem?, remove_at}
use talos_mcp_server.Http.{
  Method, Request, Reply, Route, Stack, Serving, Outcome, replied, serving, is_post, token_verifier,
  Transport, allowed_or, rate_limit, limit_request_body, releasing, limit_concurrency,
  require_bearer_token, healthz, chain, http_mux, to_healthz, to_root, redirect, redirected, get,
  head, post, delete, other_method, healthy, unhealthy, method_not_allowed, mcp_handler,
}

abbrev pub slots : List Serving → ℕ
slots [] = 0
slots (s ∷ ss) = (if s.slot then 1 else 0) + slots ss

pub slots-remove_at :
    (ss : List Serving) (i : ℕ) (s : Serving)
    → get_elem? ss i ≡ some s
    → (if s.slot then 1 else 0) + slots (remove_at ss i) ≡ slots ss
slots-remove_at [] i s e = cc
slots-remove_at (x ∷ ss) zero s e = let same : x ≡ s = cc in rw same refl
slots-remove_at (x ∷ ss) (suc i) s e = omega (arith, slots-remove_at ss i s e)

pub remove_at-none : (ss : List Serving) (i : ℕ) → get_elem? ss i ≡ none → remove_at ss i ≡ ss
remove_at-none [] i e = refl
remove_at-none (x ∷ ss) zero e = cc
remove_at-none (x ∷ ss) (suc i) e = ap (λ t. x ∷ t) (remove_at-none ss i e)

pub All-remove_at :
    (P : Serving → Type 0) (ss : List Serving) (i : ℕ) → All P ss → All P (remove_at ss i)
All-remove_at P [] i a = tt
All-remove_at P (x ∷ ss) zero a = a.1
All-remove_at P (x ∷ ss) (suc i) a = (a.0, All-remove_at P ss i a.1)

module _ (p : Stack) (token : Text) (max_body : ℕ) where
  -- The request carries the token.
  abbrev pub Authorized : Request → Type 0
  Authorized r = (h : Text) × (r.authorization ≡ some h) × (p.bearer_token h ≡ some token)

  -- What is true of a request that is served: it carries the token, and if it is a POST, then it holds
  -- a slot and its body is limited.
  abbrev pub Admitted : Serving → Type 0
  Admitted s =
      Authorized s.request
      × (s.slot ≡ is_post s.request.method)
      × (is_post s.request.method ≡ true → s.request.body_limit ≡ some max_body)

  -- A handler that answers leaves the semaphore alone; one that serves has taken the slot it holds.
  abbrev pub Handled : Request → Transport p → Outcome × Transport p → Type 0
  Handled r t (replied a, u) = u.sem ≡ t.sem
  Handled r t (serving s, u) =
      (s.request.authorization ≡ r.authorization)
      × Admitted s
      × (((s.slot ≡ true) × (p.try_acquire t.sem ≡ some u.sem))
          ⊎ ((s.slot ≡ false) × (u.sem ≡ t.sem)))

  verified :
      (incoming : Text) (now expires : ℕ)
      → token_verifier token now incoming ≡ some expires
      → incoming ≡ token
  unfolding token_verifier
  verified incoming now expires e = elim (Bool-cases (text_eq incoming token)) [
    | inl q ↦ (text_eq_iff incoming token).0 q
    | inr q ↦ let f = (rw q at e) in cc
  ]

  bearer-Authorized :
      (now : ℕ) (r : Request)
      → p.check_bearer now (token_verifier token now) r ≡ none
      → Authorized r
  bearer-Authorized now r e =
      let (h, t, expires, a, b, c) = p.check_bearer-none now (token_verifier token now) r e in
      let same : t ≡ token = verified t now expires c in (h, a, cc)

  concurrency-Handled :
      (r : Request) (t : Transport p)
      → Authorized r
      → (is_post r.method ≡ true → r.body_limit ≡ some max_body)
      → Handled r t (limit_concurrency p (mcp_handler p) r t)
  unfolding limit_concurrency mcp_handler releasing
  concurrency-Handled r t auth lim = elim (Bool-cases (is_post r.method)) [
    | inr q ↦ rw q (refl, (auth, sym q, lim), inr (refl, refl))
    | inl q ↦ elim (Option-cases (p.try_acquire t.sem)) [
      | inl e ↦ rw (q, e) refl
      | inr (s, e) ↦ rw (q, e) (refl, (auth, sym q, lim), inl (refl, e))
    ]
  ]

  bearer-Handled :
      (now : ℕ) (r : Request) (t : Transport p)
      → (is_post r.method ≡ true → r.body_limit ≡ some max_body)
      → Handled r t (
          require_bearer_token p now
            (token_verifier token now)
            (limit_concurrency p (mcp_handler p))
            r
            t)
  unfolding require_bearer_token
  bearer-Handled now r t lim =
      elim (Option-cases (p.check_bearer now (token_verifier token now) r)) [
        | inl e ↦
            subst (Handled r t) (sym (served e))
              (concurrency-Handled r t (bearer-Authorized now r e) lim)
        | inr (a, e) ↦ subst (Handled r t) (sym (answered a e)) refl
      ]
    where
      served :
          p.check_bearer now (token_verifier token now) r ≡ none
          → require_bearer_token p now
              (token_verifier token now)
              (limit_concurrency p (mcp_handler p))
              r
              t
            ≡ limit_concurrency p (mcp_handler p) r t
      served e = rw (e, require_bearer_token) refl

      answered :
          (a : Reply)
          → p.check_bearer now (token_verifier token now) r ≡ some a
          → require_bearer_token p now
              (token_verifier token now)
              (limit_concurrency p (mcp_handler p))
              r
              t
            ≡ (replied a, t)
      answered a e = rw (e, require_bearer_token) refl

  body-Handled :
      (now : ℕ) (r : Request) (t : Transport p)
      → Handled r t (
          limit_request_body p max_body
            (require_bearer_token p now
              (token_verifier token now)
              (limit_concurrency p (mcp_handler p)))
            r
            t)
  unfolding limit_request_body
  body-Handled now r t = elim (Bool-cases (is_post r.method)) [
    | inl q ↦ rw q (bearer-Handled now (record r { body_limit = some max_body }) t (λ _. refl))
    | inr q ↦ rw q (bearer-Handled now r t (λ e. let no = (rw q at e) in cc))
  ]

  -- Through the whole chain: the semaphore changes just as the requests that are served do.
  chain-Handled :
      (now : ℕ) (r : Request) (t : Transport p) → Handled r t (chain p token max_body now r t)
  unfolding chain rate_limit allowed_or
  chain-Handled now r t = by_limiter (p.allow now t.limiter)
    where
      by_limiter :
          (a : Bool × p.Limiter)
          → Handled r t (
              allowed_or p a
                (limit_request_body p max_body (
                  require_bearer_token p now
                    (token_verifier token now)
                    (limit_concurrency p (mcp_handler p))))
                r
                t)
      by_limiter (true, l) = body-Handled now r (record t { limiter = l })
      by_limiter (false, l) = refl

  healthz-Handled :
      (reachable : Bool) (r : Request) (t : Transport p) → Handled r t (healthz p reachable r t)
  unfolding healthz
  healthz-Handled reachable r t = by_method r.method
    where
      by_method :
          (m : Method)
          → Handled r t (elim m [
            | get ↦ (replied (if reachable then healthy else unhealthy), t)
            | head ↦ (replied (if reachable then healthy else unhealthy), t)
            | _ ↦ (replied method_not_allowed, t)
          ])
      by_method get = refl
      by_method head = refl
      by_method post = refl
      by_method delete = refl
      by_method (other_method m) = refl

  pub mux-Handled :
      (now : ℕ) (reachable : Bool) (r : Request) (t : Transport p)
      → Handled r t (http_mux p token max_body now reachable r t)
  unfolding http_mux
  mux-Handled now reachable r t = by_route (p.route r)
    where
      by_route :
          (a : Route)
          → Handled r t (elim a [
            | to_healthz ↦ healthz p reachable r t
            | to_root ↦ chain p token max_body now r t
            | redirect ↦ (replied redirected, t)
          ])
      by_route to_healthz = healthz-Handled reachable r t
      by_route to_root = chain-Handled now r t
      by_route redirect = refl
