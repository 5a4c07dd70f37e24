-- ===== src/Tools/Config/Audit.antt =====
-- The audit trail of a config replacement: auditLog first, and auditOutcome last.
use talos_mcp_server.Common.{
  ◌≡◌, refl, ◌↔◌, inl, inr, Bool, true, false, not, ◌∷◌, arith, Option-cases, is_ok, Result-cases,
  Text, codes, is_empty, Result, ok, err,
}
use talos_mcp_server.Net.{Net}
use talos_mcp_server.Tools.Effect.{
  History, Refusal, finish, with_nodes_cases, Outcome, ToolError, Env, Handlers, outcome_ok, audit,
  audit_outcome,
}
use talos_mcp_server.Tools.Config.{
  checked_apply_config, ApplyConfigArgs, parse_apply_config_mode, handle_apply_config_insecure,
  handle_apply_config_authenticated, handle_apply_config, or_else, send_config,
}
use talos_mcp_server.Tools.ConfigFile.{Disk, read_config_file}
use talos_mcp_server.Tools.Config.Insecurely.{gate_cases}

-- A failure carries an outcome other than OutcomeOK.
abbrev pub blamed : {A : Type 0} → Result Refusal A → Bool
blamed (err (outcome_ok, e)) = false
blamed _ = true

-- The last event is the outcome of the run: "ok", without an error, if and only if the run succeeded.
abbrev pub Audited : {A : Type 0} → Text → Result ToolError A × History → Type 0
Audited tool (r, after) =
    (o : Outcome) × (failed : Bool) × (trail : History) × (after
      ≡ audit_outcome tool o failed ∷ trail)
    × (failed ≡ not (is_ok r))
    × ((o ≡ outcome_ok) ↔ (is_ok r ≡ true))

pub finish-Audited :
    {A : Type 0} (tool : Text) (r : Result Refusal A) (h : History)
    → blamed r ≡ true
    → Audited tool (finish tool (r, h))
finish-Audited tool (ok a) h b = (outcome_ok, false, h, refl, refl, (λ _. refl, λ _. refl))
finish-Audited tool (err (outcome_ok, e)) h b = absurd (ground arith)
finish-Audited tool (err (o, e)) h b = (o, true, h, refl, refl, ground arith)

module _ (net : Net) (disk : Disk) (env : Env) (h : Handlers) where
  authenticated_blamed :
      (args : ApplyConfigArgs) (hist : History)
      → blamed (handle_apply_config_authenticated net disk env h args hist).0 ≡ true
  unfolding handle_apply_config_authenticated send_config or_else
  authenticated_blamed args hist = elim (Option-cases (parse_apply_config_mode args.mode)) [
    | inl e ↦ (ground (arith, with_nodes_cases net h.allowed_nodes args.nodes))
    | inr (mode, e) ↦ elim (Result-cases (read_config_file disk args.config_file)) [
      | inr (f, p) ↦ (ground (arith, with_nodes_cases net h.allowed_nodes args.nodes))
      | inl (content, p) ↦ ground (arith, with_nodes_cases net h.allowed_nodes args.nodes)
    ]
  ]

  insecure_blamed :
      (args : ApplyConfigArgs) (hist : History)
      → blamed (handle_apply_config_insecure net disk env h args hist).0 ≡ true
  unfolding handle_apply_config_insecure send_config or_else
  insecure_blamed args hist =
      elim (gate_cases net h args.endpoint args.cert_fingerprint (not (is_empty args.nodes)) hist) [
        | inr (o, e, g, n) ↦ ground arith
        | inl (canon, fp, g, gated) ↦ elim (Option-cases (parse_apply_config_mode args.mode)) [
          | inl e ↦ (ground arith)
          | inr (mode, e) ↦ elim (Result-cases (read_config_file disk args.config_file)) [
            | inr (f, p) ↦ (ground arith)
            | inl (content, p) ↦ ground arith
          ]
        ]
      ]

  -- Every run of a config replacement ends its trail with one outcome, which is "ok" if and only if the
  -- run succeeded, and carries an error if and only if it failed.
  pub apply_config-Audited :
      (args : ApplyConfigArgs) (hist : History)
      → Audited (codes "talos_apply_config") (handle_apply_config net disk env h args hist)
  unfolding handle_apply_config checked_apply_config
  apply_config-Audited args hist =
      let before = audit (codes "talos_apply_config") ∷ hist in
      let run = checked_apply_config net disk env h args before in
      finish-Audited (codes "talos_apply_config") run.0 run.1
        (ground (arith, authenticated_blamed args before, insecure_blamed args before))
