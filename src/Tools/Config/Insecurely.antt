-- ===== src/Tools/Config/Insecurely.antt =====
-- The maintenance-mode connection and its gate.
use talos_mcp_server.Common.{
  ℕ, ◌≡◌, refl, ◌≢◌, ◌⊎◌, inl, inr, Bool, true, false, not, ◌||◌, Option, some, List, ◌∷◌, arith,
  Bool-cases, Option-cases, Result-cases, Text, codes, is_empty, ok, err,
}
use talos_mcp_server.Net.{Net}
use talos_mcp_server.Tools.Effect.{
  History, Sent, Refused, Outcome, ApplyMode, ToolError, Env, Handlers, outcome_ok, refused_enable,
  refused_nodes_exclusive, refused_endpoint_empty, refused_endpoint_invalid, refused_allowlist,
  refused_fingerprint, apply_configuration, insecure, audit, insecure_disabled, nodes_exclusive,
  endpoint_missing, endpoint_invalid, endpoint_not_allowed, fingerprint_invalid,
}
use talos_mcp_server.Tools.Config.{
  checked_apply_config, ApplyConfigArgs, resolve_dry_run, parse_apply_config_mode,
  checked_fingerprint, canonicalize_and_check_insecure, handle_apply_config_insecure,
  handle_apply_config, or_else, send_config,
}
use talos_mcp_server.Nodes.{check_node}
use talos_mcp_server.Insecure.{canonical_ip}
use talos_mcp_server.Tools.ConfigFile.{Disk, read_config_file}

-- What the gate promises of the address and the fingerprint that it returns.
abbrev pub Gated : Net → Handlers → Text → Text → Bool → Text → Option (List ℕ) → Type 0
Gated net h endpoint fingerprint provided canon fp =
    (h.enable_insecure ≡ true)
    × (provided ≡ false)
    × (canonical_ip net endpoint ≡ ok canon)
    × (check_node net h.insecure_allowed_nodes canon ≡ ok tt)
    × (checked_fingerprint fingerprint ≡ ok fp)

module _ (net : Net) (h : Handlers) where
  pub gate_cases :
      (endpoint fingerprint : Text) (provided : Bool) (hist : History)
      → ((canon : Text) × (fp : Option (List ℕ)) × (canonicalize_and_check_insecure net h endpoint
              fingerprint provided hist
            ≡ (ok (canon, fp), hist))
          × Gated net h endpoint fingerprint provided canon fp)
        ⊎ ((o : Outcome) × (e : ToolError) × (canonicalize_and_check_insecure net h endpoint
                fingerprint provided hist
              ≡ (err (o, e), hist))
            × (o ≢ outcome_ok))
  unfolding canonicalize_and_check_insecure
  gate_cases endpoint fingerprint provided hist = elim (Bool-cases h.enable_insecure) [
    | inr a ↦ inr (refused_enable, insecure_disabled, rw a refl, ground arith)
    | inl a ↦ elim (Bool-cases provided) [
      | inl b ↦ inr (refused_nodes_exclusive, nodes_exclusive, rw (a, b) refl, ground arith)
      | inr b ↦ elim (Bool-cases (is_empty endpoint)) [
        | inl c ↦ inr (refused_endpoint_empty, endpoint_missing, rw (a, b, c) refl, ground arith)
        | inr c ↦ elim (Result-cases (canonical_ip net endpoint)) [
          | inr (e, p) ↦
              inr (refused_endpoint_invalid, endpoint_invalid e, rw (a, b, c, p) refl, ground arith)
          | inl (canon, p) ↦ elim (Result-cases (check_node net h.insecure_allowed_nodes canon)) [
            | inr (e, q) ↦ inr (
              refused_allowlist,
              endpoint_not_allowed canon,
              rw (a, b, c, p, q) refl,
              ground arith,
            )
            | inl (u, q) ↦ elim (Result-cases (checked_fingerprint fingerprint)) [
              | inr (e, r) ↦ inr (
                refused_fingerprint,
                fingerprint_invalid e,
                rw (a, b, c, p, q, r) refl,
                ground arith,
              )
              | inl (fp, r) ↦ inl (canon, fp, rw (a, b, c, p, q, r) refl, (a, b, p, q, r))
            ]
          ]
        ]
      ]
    ]
  ]

module _ (net : Net) (disk : Disk) (env : Env) (h : Handlers) where
  insecure_guarded :
      (args : ApplyConfigArgs) (hist : History)
      → Refused (handle_apply_config_insecure net disk env h args hist) hist
        ⊎ ((canon : Text) × (fp : Option (List ℕ)) × (content : Text) × (mode : ApplyMode) × Gated
              net h args.endpoint args.cert_fingerprint
              (not (is_empty args.nodes))
              canon
              fp
            × (resolve_dry_run args.dry_run || args.confirm ≡ true)
            × (read_config_file disk args.config_file ≡ ok content)
            × (parse_apply_config_mode args.mode ≡ some mode)
            × Sent
                (handle_apply_config_insecure net disk env h args hist)
                hist
                (insecure canon fp)
                (apply_configuration (record {
                  config = content;
                  mode = mode;
                  dry_run = resolve_dry_run args.dry_run;
                })))
  unfolding handle_apply_config_insecure send_config or_else
  insecure_guarded args hist =
      elim (gate_cases net h args.endpoint args.cert_fingerprint (not (is_empty args.nodes)) hist) [
        | inr (o, e, g, n) ↦ inl (rw g (refl, refl))
        | inl (canon, fp, g, gated) ↦ elim (Option-cases (parse_apply_config_mode args.mode)) [
          | inl e ↦ inl (ground arith)
          | inr (mode, e) ↦ elim (Result-cases (read_config_file disk args.config_file)) [
            | inr (f, p) ↦ inl (ground arith)
            | inl (content, p) ↦ ground arith
          ]
        ]
      ]

  -- A maintenance-mode config replacement that is not refused: the mode is enabled, no nodes are named,
  -- the endpoint is an address whose canonical form passes the insecure allowlist, the fingerprint is
  -- absent or well formed, it is a dry run or was confirmed, and its file is readable and its mode
  -- known; it makes one mutating call, of that file to that canonical address, with the connection
  -- pinned to that fingerprint. A refused one makes none.
  pub apply_config_insecure_guarded :
      (args : ApplyConfigArgs) (hist : History)
      → args.insecure_flag ≡ true
      → Refused (handle_apply_config net disk env h args hist) hist
        ⊎ ((canon : Text) × (fp : Option (List ℕ)) × (content : Text) × (mode : ApplyMode) × Gated
              net h args.endpoint args.cert_fingerprint
              (not (is_empty args.nodes))
              canon
              fp
            × (resolve_dry_run args.dry_run || args.confirm ≡ true)
            × (read_config_file disk args.config_file ≡ ok content)
            × (parse_apply_config_mode args.mode ≡ some mode)
            × Sent (handle_apply_config net disk env h args hist) hist (insecure canon fp) (
                apply_configuration (record {
                  config = content;
                  mode = mode;
                  dry_run = resolve_dry_run args.dry_run;
                })))
  unfolding handle_apply_config checked_apply_config
  apply_config_insecure_guarded args hist s =
      ground (arith, insecure_guarded args (audit (codes "talos_apply_config") ∷ hist))
