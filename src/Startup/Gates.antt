-- ===== src/Startup/Gates.antt =====
-- What a server that has started may rely on.
use talos_mcp_server.Common.{
  ℕ, ◌≤◌, ◌≡◌, refl, ap, ◌∙◌, ◌≢◌, inl, inr, true, Option, List, [], arith, ◌==◌, Bool-cases, Text,
  codes, Result, ok, err,
}
use talos_mcp_server.Net.{Net}
use talos_mcp_server.Nodes.{NodeAllowlist, parse_node_allowlist, len}
use talos_mcp_server.Insecure.{check_insecure_allowlist}
use talos_mcp_server.MetaKey.{parse_meta_privileged_keys}
use talos_mcp_server.Safety.{Environment, SafetyProfile, getenv, load_safety_profile}
use mathlib.Core.Path.{subst}
use talos_mcp_server.Common.Results.{bind-ok, ok_same}
use talos_mcp_server.Startup.{
  insecure_nodes_refused, invalid_insecure_nodes, unknown_profile, invalid_allowed_nodes,
  invalid_meta_keys, no_client, Server, StartError, wrapped, validate_http_config,
  parse_subscription_limits, insecure_allowlist, start,
}

wrapped-ok :
    {E A : Type 0} (wrap : E → StartError) (r : Result E A) (a : A)
    → wrapped wrap r ≡ ok a
    → r ≡ ok a
wrapped-ok wrap (ok a) b p = let same : a ≡ b = cc in ap ok same
wrapped-ok wrap (err e) b p = cc

-- The allowlist of maintenance mode: accepted, within the ceiling, and not empty.
abbrev pub Fenced : Net → Environment → Option NodeAllowlist → Type 0
Fenced net environ allowed =
    let raw = getenv environ (codes "TALOS_MCP_INSECURE_ALLOWED_NODES") in
    (broad : List Text) × (check_insecure_allowlist net raw ≡ ok broad)
    × (parse_node_allowlist net raw ≡ ok allowed)
    × (1 ≤ len allowed)

module _ (net : Net) where
  insecure_allowlist-ok :
      (raw : Text) (a : Option NodeAllowlist)
      → insecure_allowlist net true raw ≡ ok a
      → (broad : List Text) × (check_insecure_allowlist net raw ≡ ok broad)
        × (parse_node_allowlist net raw ≡ ok a)
        × (1 ≤ len a)
  unfolding insecure_allowlist
  insecure_allowlist-ok raw a p =
      let (broad, c, q) =
        bind-ok (wrapped insecure_nodes_refused (check_insecure_allowlist net raw)) _ a p in
      let (b, d, r) =
        bind-ok (wrapped invalid_insecure_nodes (parse_node_allowlist net raw)) _ a q in
      elim (Bool-cases (len b == 0)) [
        | inl e ↦ let t = (rw e at r) in cc
        | inr e ↦
            let same : b ≡ a = let t = (rw e at r) in cc in
            let some_entry : 1 ≤ len b = ground arith in
            (
              broad,
              wrapped-ok insecure_nodes_refused (check_insecure_allowlist net raw) broad c,
              wrapped-ok invalid_insecure_nodes (parse_node_allowlist net raw) b d ∙ ap ok same,
              subst (λ x. 1 ≤ len x) same some_entry,
            )
      ]

  -- What the steps of a successful start have given.
  abbrev pub Steps : Environment → Server → Type 0
  Steps environ s =
      (insecure_allowlist net s.handlers.enable_insecure
          (getenv environ (codes "TALOS_MCP_INSECURE_ALLOWED_NODES"))
        ≡ ok s.handlers.insecure_allowed_nodes)
      × (parse_node_allowlist net (getenv environ (codes "TALOS_MCP_ALLOWED_NODES"))
          ≡ ok s.handlers.allowed_nodes)
      × (validate_http_config s.http_addr s.auth_token ≡ ok tt)
      × (safety : SafetyProfile) × (load_safety_profile environ ≡ ok safety)
      × (s.read_only ≡ safety.read_only)

  pub start-Steps :
      (parse_duration : Text → Result Text ℕ) (new_client : Result Text (Unit {0}))
      (environ : Environment) (s : Server)
      → start net parse_duration new_client environ ≡ ok s
      → Steps environ s
  unfolding start
  start-Steps parse_duration new_client environ s p =
      let (safety, z, p1) = bind-ok (wrapped unknown_profile (load_safety_profile environ)) _ s p in
      let (allowed, a, p2) =
        bind-ok
          (wrapped invalid_allowed_nodes
            (parse_node_allowlist net (getenv environ (codes "TALOS_MCP_ALLOWED_NODES"))))
          _ s p1 in
      let (fenced, b, p3) =
        bind-ok
          (insecure_allowlist net safety.enable_insecure
            (getenv environ (codes "TALOS_MCP_INSECURE_ALLOWED_NODES")))
          _ s p2 in
      let (keys, _, p4) =
        bind-ok
          (wrapped invalid_meta_keys
            (parse_meta_privileged_keys (getenv environ (codes "TALOS_MCP_META_PRIVILEGED_KEYS"))))
          _ s p3 in
      let (_, c, p5) =
        bind-ok
          (validate_http_config (getenv environ (codes "TALOS_MCP_HTTP_ADDR"))
            (getenv environ (codes "TALOS_MCP_AUTH_TOKEN")))
          _ s p4 in
      let (_, _, p6) = bind-ok (wrapped no_client new_client) _ s p5 in
      let (limits, _, p7) =
        bind-ok
          (parse_subscription_limits parse_duration
            (getenv environ (codes "TALOS_MCP_SUBSCRIPTION_RATE"))
            (getenv environ (codes "TALOS_MCP_SUBSCRIPTION_BURST")))
          _ s p6 in
      subst (Steps environ) (ok_same p7) (
        b,
        wrapped-ok invalid_allowed_nodes
            (parse_node_allowlist net (getenv environ (codes "TALOS_MCP_ALLOWED_NODES"))) allowed a,
        c,
        safety,
        wrapped-ok unknown_profile (load_safety_profile environ) safety z,
        refl,
      )

  -- A server that starts with maintenance mode on has an allowlist for it: the text of its variable is
  -- within the ceiling and parses to an allowlist with at least one entry.
  pub start-Fenced :
      (parse_duration : Text → Result Text ℕ) (new_client : Result Text (Unit {0}))
      (environ : Environment) (s : Server)
      → start net parse_duration new_client environ ≡ ok s
      → s.handlers.enable_insecure ≡ true
      → Fenced net environ s.handlers.insecure_allowed_nodes
  start-Fenced parse_duration new_client environ s p on =
      let (i, _, _, _, _, _) = start-Steps parse_duration new_client environ s p in
      let raw = getenv environ (codes "TALOS_MCP_INSECURE_ALLOWED_NODES") in
      insecure_allowlist-ok raw s.handlers.insecure_allowed_nodes
        (subst (λ b. insecure_allowlist net b raw ≡ ok s.handlers.insecure_allowed_nodes) on i)

  -- A server that starts to serve HTTP has a token that is not empty.
  start-http_token :
      (parse_duration : Text → Result Text ℕ) (new_client : Result Text (Unit {0}))
      (environ : Environment) (s : Server)
      → start net parse_duration new_client environ ≡ ok s
      → s.http_addr ≢ []
      → s.auth_token ≢ []
  unfolding validate_http_config
  start-http_token parse_duration new_client environ s p addr =
      let (_, _, v, _, _, _) = start-Steps parse_duration new_client environ s p in ground arith
