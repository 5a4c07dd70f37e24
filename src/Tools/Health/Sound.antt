-- ===== src/Tools/Health/Sound.antt =====
-- A health check that succeeds.
use talos_mcp_server.Common.{
  ℕ, ◌+◌, ◌≡◌, refl, sym, ap, ◌∙◌, inl, inr, none, List, [], ◌∷◌, if◌then◌else◌, Bool-cases,
  Option-cases, Text, codes, is_empty, Result, ok, err,
}
use mathlib.Core.Path.{subst}
use talos_mcp_server.Net.{Net}
use talos_mcp_server.Nodes.{with_nodes, check_nodes}
use talos_mcp_server.Tools.Effect.{Permitted, with_nodes_cases, Handlers}
use talos_mcp_server.Common.Results.{bind-ok, ok_same}
use talos_mcp_server.Nodes.Matching.{check_nodes-All}
use talos_mcp_server.Tools.Stream.{Stream}
use talos_mcp_server.Tools.Health.{
  HealthArgs, Health, receive, health_result, refused_as, wait_timeout_of, handle_health,
  control_plane_refused, workers_refused, nodes_refused, check_failed,
}

-- The messages that say something.
abbrev pub spoken : List Text → List Text
spoken [] = []
spoken (m ∷ ms) = if is_empty m then spoken ms else m ∷ spoken ms

-- One notification for each message, in order, numbered from there on; an empty one has a fixed text.
abbrev pub announced : ℕ → List Text → List (Text × ℕ)
announced i [] = []
announced i (m ∷ ms) =
    (if is_empty m then codes "checking cluster health" else m, i + 1) ∷ announced (i + 1) ms

receive_lem : (i : ℕ) (ms : List Text) → receive i ms ≡ (spoken ms, announced i ms)
unfolding receive
receive_lem i [] = refl
receive_lem i (m ∷ ms) = elim (Bool-cases (is_empty m)) [
  | inl e ↦ rw (receive_lem (i + 1) ms, e) refl
  | inr e ↦ rw (receive_lem (i + 1) ms, e) refl
]

refused_as-ok :
    {D E A : Type 0} (wrap : D → E) (r : Result D A) (a : A) → refused_as wrap r ≡ ok a → r ≡ ok a
refused_as-ok wrap (ok a) b p = let same : a ≡ b = cc in ap ok same
refused_as-ok wrap (err e) b p = cc

health_result-ok :
    (s : Stream Text) (r : Health)
    → health_result s ≡ ok r
    → (s.failure ≡ none)
      × (r ≡ record { messages = spoken s.messages; progress = announced 0 s.messages })
unfolding health_result
health_result-ok s r p = elim (Option-cases s.failure) [
  | inl e ↦ let q = (rw (e, health_result) at p) in (e, sym (ok_same q) ∙ rw receive_lem refl)
  | inr (f, e) ↦ let q = (rw (e, health_result) at p) in cc
]

module _ {D : Type 0} (net : Net) (h : Handlers) where
  -- A health check that is reported as passed: the nodes that it names, of all three kinds, are
  -- permitted; the API checked just these, with the time to wait that was asked for; its stream ended
  -- without an error; and the result holds the messages of that stream that are not empty, in order,
  -- while each message was announced, numbered from 1.
  pub handle_health_sound :
      (parse_duration : Text → Result Text D) (default : D)
      (check : List Text → D → List Text → List Text → Result Text (Stream Text))
      (args : HealthArgs) (r : Health)
      → handle_health net h parse_duration default check args ≡ ok r
      → Permitted net h.allowed_nodes args.control_plane_nodes
        × Permitted net h.allowed_nodes args.worker_nodes
        × Permitted net h.allowed_nodes args.nodes
        × (wait : D) × (stream : Stream Text) × (wait_timeout_of parse_duration default
              args.wait_timeout
            ≡ ok wait)
        × (check args.nodes wait args.control_plane_nodes args.worker_nodes ≡ ok stream)
        × (stream.failure ≡ none)
        × (r ≡ record { messages = spoken stream.messages; progress = announced 0 stream.messages })
  unfolding handle_health
  handle_health_sound parse_duration default check args r p =
      let (a, e1, p1) =
        bind-ok
          (refused_as control_plane_refused
            (check_nodes net h.allowed_nodes args.control_plane_nodes))
          _ r p in
      let (b, e2, p2) =
        bind-ok (refused_as workers_refused (check_nodes net h.allowed_nodes args.worker_nodes)) _ r
          p1 in
      let (targets, e3, p3) =
        bind-ok (refused_as nodes_refused (with_nodes net [] h.allowed_nodes args.nodes)) _ r p2 in
      let (wait, e4, p4) =
        bind-ok (wait_timeout_of parse_duration default args.wait_timeout) _ r p3 in
      let (stream, e5, p5) =
        bind-ok
          (refused_as check_failed (check targets wait args.control_plane_nodes args.worker_nodes))
          _ r p4 in
      let (f, same) = health_result-ok stream r p5 in
      elim (with_nodes_cases net h.allowed_nodes args.nodes) [
        | inr (e, q) ↦ let no_targets = sym q ∙ refused_as-ok nodes_refused _ targets e3 in cc
        | inl (q, permitted) ↦
            let same_targets : targets ≡ args.nodes =
              ok_same (sym (refused_as-ok nodes_refused _ targets e3) ∙ q) in
            (
              check_nodes-All net h.allowed_nodes args.control_plane_nodes
                  (refused_as-ok control_plane_refused _ a e1),
              check_nodes-All net h.allowed_nodes args.worker_nodes
                  (refused_as-ok workers_refused _ b e2),
              permitted,
              wait,
              stream,
              e4,
              subst (λ t. check t wait args.control_plane_nodes args.worker_nodes ≡ ok stream)
                  same_targets (refused_as-ok check_failed _ stream e5),
              f,
              same,
            )
      ]
