-- ===== src/Http/Admission.antt =====
-- When the HTTP transport of cmd/talos-mcp serves a POST request.
use talos_mcp_server.Common.{
  ℕ, ◌+◌, ◌≤◌, ◌<◌, ◌≡◌, refl, ap, ◌∙◌, ◌⊎◌, inl, inr, Bool, true, false, none, some, List, arith,
  Option-cases, Text,
}
use talos_mcp_server.Text.{text_eq_refl}
use talos_mcp_server.Http.{
  Request, Stack, replied, serving, is_post, token_lifetime, token_verifier, Transport, Handler,
  allowed_or, rate_limit, limit_request_body, releasing, limit_concurrency, require_bearer_token,
  chain, http_mux, Http, Event, run, new_http, to_root, server_busy, mcp_handler,
}
use talos_mcp_server.Http.Requests.{posts, slots-posts, run-Sound, new-Sound}

module _ (p : Stack) (token : Text) (max_body n : ℕ) where
  slot_free :
      (r : Request) (t : Transport p) (s : p.Semaphore)
      → is_post r.method ≡ true
      → p.try_acquire t.sem ≡ some s
      → (limit_concurrency p (mcp_handler p) r t).0 ≡ serving (record { request = r; slot = true })
  unfolding limit_concurrency mcp_handler releasing
  slot_free r t s q e = rw (q, e) refl

  slot_none :
      (r : Request) (t : Transport p)
      → is_post r.method ≡ true
      → p.try_acquire t.sem ≡ none
      → (limit_concurrency p (mcp_handler p) r t).0 ≡ replied server_busy
  unfolding limit_concurrency
  slot_none r t q e = rw (q, e) refl

  verifies : (now : ℕ) → token_verifier token now token ≡ some (now + token_lifetime)
  unfolding token_verifier
  verifies now = rw (text_eq_refl token) refl

  -- A POST request with the token passes the chain up to the semaphore.
  reaches_slots :
      (now : ℕ) (reachable : Bool) (r : Request) (header : Text) (t : Transport p)
      → is_post r.method ≡ true
      → p.route r ≡ to_root
      → r.authorization ≡ some header
      → p.bearer_token header ≡ some token
      → (p.allow now t.limiter).0 ≡ true
      → http_mux p token max_body now reachable r t
        ≡ limit_concurrency p
            (mcp_handler p)
            (record r { body_limit = some max_body })
            (record t { limiter = (p.allow now t.limiter).1 })
  unfolding chain rate_limit allowed_or http_mux
  reaches_slots now reachable r header t q to h b allowed =
      routed ∙ limited (p.allow now t.limiter) allowed ∙ bounded ∙ verified
    where
      next : Handler p
      next =
          require_bearer_token p now (token_verifier token now)
            (limit_concurrency p (mcp_handler p))

      r' : Request
      r' = record r { body_limit = some max_body }

      t' : Transport p
      t' = record t { limiter = (p.allow now t.limiter).1 }

      routed :
          http_mux p token max_body now reachable r t
          ≡ allowed_or p (p.allow now t.limiter) (limit_request_body p max_body next) r t
      routed = rw (to, http_mux) refl

      limited :
          (a : Bool × p.Limiter)
          → a.0 ≡ true
          → allowed_or p a (limit_request_body p max_body next) r t
            ≡ limit_request_body p max_body next r (record t { limiter = a.1 })
      limited (true, l) e = refl
      limited (false, l) e = cc

      bounded : limit_request_body p max_body next r t' ≡ next r' t'
      bounded = rw (q, limit_request_body) refl

      verified : next r' t' ≡ limit_concurrency p (mcp_handler p) r' t'
      verified =
          let e =
            p.check_bearer-some now (now + token_lifetime) (token_verifier token now) r' header
              token h b (verifies now) (omega arith) in
          rw (e, require_bearer_token) refl

  -- A POST request with the token, which the mux sends to the root and the rate limiter allows: it is
  -- served if fewer POST requests are being served than the configured number, whatever happened
  -- before, and answered with "server busy" otherwise.
  pub post_admission :
      (limiter : p.Limiter) (es : List Event) (now : ℕ) (reachable : Bool) (r : Request)
      (header : Text)
      → let h = run p token max_body es (new_http p limiter n) in
        is_post r.method ≡ true
        → p.route r ≡ to_root
        → r.authorization ≡ some header
        → p.bearer_token header ≡ some token
        → (p.allow now h.transport.limiter).0 ≡ true
        → let outcome = (http_mux p token max_body now reachable r h.transport).0 in
          ((posts h.in_flight < n)
            × (outcome
                ≡ serving
                    (record { request = record r { body_limit = some max_body }; slot = true })))
          ⊎ ((n ≤ posts h.in_flight) × (outcome ≡ replied server_busy))
  post_admission limiter es now reachable r header q to h b yes' =
      let state : Http p = run p token max_body es (new_http p limiter n) in
      let v =
        run-Sound p token max_body n es (new_http p limiter n)
          (new-Sound p token max_body n limiter) in
      let same = slots-posts p token max_body n state.in_flight v.admitted in
      let r' : Request = record r { body_limit = some max_body } in
      let t : Transport p = record state.transport {
        limiter = (p.allow now state.transport.limiter).1;
      } in
      let through = reaches_slots now reachable r header state.transport q to h b yes' in
      elim (Option-cases (p.try_acquire t.sem)) [
        | inr (s, e) ↦
            let (_, held, less) = p.acquired t.sem s e in
            inl (omega (arith, v.counted, v.sized), ap (λ o. o.0) through ∙ slot_free r' t s q e)
        | inl e ↦ inr (
          omega (arith, p.exhausted t.sem e, v.counted, v.sized),
          ap (λ o. o.0) through ∙ slot_none r' t q e,
        )
      ]
