-- ===== src/Http/Requests.antt =====
-- The HTTP transport at work: what holds after any sequence of arrivals and endings.
use talos_mcp_server.Common.{
  ℕ, ◌+◌, ◌≤◌, ◌≡◌, refl, sym, ap, ◌∙◌, inl, inr, Bool, true, false, Option, none, some, List, [],
  ◌∷◌, arith, if◌then◌else◌, Bool-cases, Text, All,
}
use mathlib.Core.Path.{subst}
use talos_mcp_server.Common.Lists.{All-map, get_elem?, remove_at}
use talos_mcp_server.Http.{
  Reply, Request, Stack, Serving, Outcome, replied, serving, is_post, Transport, http_mux, Http,
  Event, arrive, end, ended, admit, step, run, new_http,
}
use talos_mcp_server.Http.Slots.{
  slots, slots-remove_at, remove_at-none, All-remove_at, Authorized, Admitted, Handled, mux-Handled,
}

-- How many POST requests are being served.
abbrev pub posts : List Serving → ℕ
posts [] = 0
posts (s ∷ ss) = (if is_post s.request.method then 1 else 0) + posts ss

module _ (p : Stack) (token : Text) (max_body n : ℕ) where
  pub record Sound (h : Http p) : Type 0 where
    pub sized : p.size h.transport.sem ≡ n
    pub counted : p.held h.transport.sem ≡ slots h.in_flight
    pub bounded : slots h.in_flight ≤ n
    pub admitted : All (Admitted p token max_body) h.in_flight

  pub slots-posts : (ss : List Serving) → All (Admitted p token max_body) ss → slots ss ≡ posts ss
  slots-posts [] a = refl
  slots-posts (s ∷ ss) ((_, e, _), a) = rw (e, slots-posts ss a) refl

  admit-Sound :
      (r : Request) (h : Http p) (o : Outcome × Transport p)
      → Handled p token max_body r h.transport o
      → Sound h
      → Sound (admit p o h.in_flight)
  unfolding admit
  admit-Sound r h (replied a, t) same i = record {
    sized = ap p.size same ∙ i.sized;
    counted = ap p.held same ∙ i.counted;
    bounded = i.bounded;
    admitted = i.admitted;
  }
  admit-Sound r h (serving s, t) (_, a, inl (slot, e)) i =
      let (size, held, less) = p.acquired h.transport.sem t.sem e in
      record {
        sized = size ∙ i.sized;
        counted = rw slot (held ∙ omega (arith, i.counted));
        bounded = rw slot (omega (arith, i.counted, i.sized));
        admitted = (a, i.admitted);
      }
  admit-Sound r h (serving s, t) (_, a, inr (slot, same)) i = record {
    sized = ap p.size same ∙ i.sized;
    counted = rw slot (ap p.held same ∙ omega (arith, i.counted));
    bounded = rw slot (omega (arith, i.bounded));
    admitted = (a, i.admitted);
  }

  ended-held :
      (s : Serving) (t : Transport p)
      → s.slot ≡ true
      → ended p (some s) t ≡ record t { sem = p.release t.sem }
  unfolding ended
  ended-held s t q = rw q refl

  ended-free : (s : Serving) (t : Transport p) → s.slot ≡ false → ended p (some s) t ≡ t
  unfolding ended
  ended-free s t q = rw q refl

  ended-Sound :
      (i : ℕ) (h : Http p) (o : Option Serving)
      → get_elem? h.in_flight i ≡ o
      → Sound h
      → Sound (record { transport = ended p o h.transport; in_flight = remove_at h.in_flight i })
  unfolding ended
  ended-Sound i h none e v = record {
    sized = v.sized;
    counted = rw (remove_at-none h.in_flight i e) v.counted;
    bounded = rw (remove_at-none h.in_flight i e) v.bounded;
    admitted = All-remove_at (Admitted p token max_body) h.in_flight i v.admitted;
  }
  ended-Sound i h (some s) e v =
      let rest : List Serving = remove_at h.in_flight i in
      let count = slots-remove_at h.in_flight i s e in
      let kept = All-remove_at (Admitted p token max_body) h.in_flight i v.admitted in
      elim (Bool-cases s.slot) [
        | inr q ↦
            let fewer : slots rest ≡ slots h.in_flight = let c = (rw q at count) in omega arith in
            subst (λ t. Sound (record { transport = t; in_flight = rest }))
              (sym (ended-free s h.transport q))
              (record {
                sized = v.sized;
                counted = v.counted ∙ sym fewer;
                bounded = omega (arith, v.bounded);
                admitted = kept;
              })
        | inl q ↦
            let fewer : 1 + slots rest ≡ slots h.in_flight =
              let c = (rw q at count) in omega arith in
            let (size, held) = p.released h.transport.sem (omega (arith, v.counted)) in
            subst (λ t. Sound (record { transport = t; in_flight = rest }))
              (sym (ended-held s h.transport q))
              (record {
                sized = size ∙ v.sized;
                counted = omega (arith, v.counted);
                bounded = omega (arith, v.bounded);
                admitted = kept;
              })
      ]

  step-Sound : (e : Event) (h : Http p) → Sound h → Sound (step p token max_body e h)
  unfolding step
  step-Sound (arrive now reachable r) h i =
      admit-Sound r h (http_mux p token max_body now reachable r h.transport)
        (mux-Handled p token max_body now reachable r h.transport) i
  step-Sound (end i) h v = ended-Sound i h (get_elem? h.in_flight i) refl v

  pub run-Sound : (es : List Event) (h : Http p) → Sound h → Sound (run p token max_body es h)
  unfolding run
  run-Sound [] h v = v
  run-Sound (e ∷ es) h v = run-Sound es (step p token max_body e h) (step-Sound e h v)

  pub new-Sound : (limiter : p.Limiter) → Sound (new_http p limiter n)
  unfolding new_http
  new-Sound limiter =
      let (s, e) = p.fresh n in
      record { sized = s; counted = e; bounded = omega arith; admitted = tt }

  -- At every moment, whatever requests have come and ended: each request that is being served carries
  -- the token, and a POST among them has its body limited; as many slots of the semaphore are held as
  -- POST requests are being served, and these are at most the configured number.
  pub run-Bounded :
      (limiter : p.Limiter) (es : List Event)
      → let h = run p token max_body es (new_http p limiter n) in
        All
          (λ s.
            Authorized p token max_body s.request
            × (is_post s.request.method ≡ true → s.request.body_limit ≡ some max_body))
          h.in_flight
        × (p.held h.transport.sem ≡ posts h.in_flight)
        × (posts h.in_flight ≤ n)
  run-Bounded limiter es =
      let v = run-Sound es (new_http p limiter n) (new-Sound limiter) in
      let h : Http p = run p token max_body es (new_http p limiter n) in
      let same = slots-posts h.in_flight v.admitted in
      (
        All-map (Admitted p token max_body) _ h.in_flight (λ s a. (a.0, a.2)) v.admitted,
        v.counted ∙ same,
        omega (arith, v.bounded, same),
      )

  -- A request without the token is answered at once and is not served: no slot of the semaphore is
  -- taken or given back, and the requests that are being served stay the same. (The rate limiter stands
  -- before the check of the token, so nothing is said of what it grants.)
  pub unauthorized_unserved :
      (h : Http p) (now : ℕ) (reachable : Bool) (r : Request)
      → ¬ Authorized p token max_body r
      → let after = step p token max_body (arrive now reachable r) h in
        ((a : Reply) × ((http_mux p token max_body now reachable r h.transport).0 ≡ replied a))
        × (after.in_flight ≡ h.in_flight)
        × (after.transport.sem ≡ h.transport.sem)
  unfolding step
  unauthorized_unserved h now reachable r denied =
      answered (http_mux p token max_body now reachable r h.transport)
        (mux-Handled p token max_body now reachable r h.transport)
    where
      answered :
          (o : Outcome × Transport p)
          → Handled p token max_body r h.transport o
          → ((a : Reply) × (o.0 ≡ replied a))
            × ((admit p o h.in_flight).in_flight ≡ h.in_flight)
            × ((admit p o h.in_flight).transport.sem ≡ h.transport.sem)
      answered (replied a, t) same = ((a, refl), refl, same)
      answered (serving s, t) (same, ((k, e, f), _, _), _) = absurd (denied (k, sym same ∙ e, f))
