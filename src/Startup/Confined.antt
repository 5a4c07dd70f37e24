-- ===== src/Startup/Confined.antt =====
-- Where a server that has started may apply a config in maintenance mode.
use talos_mcp_server.Common.{
  ℕ, ◌≡◌, sym, ap, ◌∙◌, ◌⊎◌, inl, inr, true, Option, some, List, is_ok, Text, codes, In, Result, ok,
}
use talos_mcp_server.Text.{trim_space}
use talos_mcp_server.Text.Parts.{split}
use mathlib.Core.Path.{subst}
use talos_mcp_server.Net.{Net}
use talos_mcp_server.Common.Lists.{In-All}
use talos_mcp_server.Common.Results.{ok_same}
use talos_mcp_server.Nodes.{NodeAllowlist, check_node}
use talos_mcp_server.Nodes.Matching.{matches, matches_some-In, check_node_exact}
use talos_mcp_server.Insecure.Ceiling.{
  WithinCeiling, check_insecure_allowlist_sound, parse-check_insecure_allowlist,
}
use talos_mcp_server.Safety.{Environment, getenv}
use talos_mcp_server.Startup.{Server, start}
use talos_mcp_server.Startup.Gates.{Fenced, start-Fenced}
use talos_mcp_server.Tools.ConfigFile.{Disk}
use talos_mcp_server.Tools.Config.{ApplyConfigArgs, handle_apply_config}
use talos_mcp_server.Tools.Config.Insecurely.{apply_config_insecure_guarded}
use talos_mcp_server.Tools.Effect.{History, Sent, Refused, Call, Env, insecure}

module _ (net : Net) where
  -- Some entry of the variable stands for the node, and is an address or a range within the ceiling.
  abbrev pub Confined : Environment → Text → Type 0
  Confined environ node =
      let entries =
        split (trim_space (getenv environ (codes "TALOS_MCP_INSECURE_ALLOWED_NODES"))) b',' in
      (entry : Text) × In entry entries
      × WithinCeiling net (trim_space entry)
      × (matches net (trim_space entry) node ≡ true)

  Fenced-Confined :
      (environ : Environment) (allowed : Option NodeAllowlist) (node : Text)
      → Fenced net environ allowed
      → check_node net allowed node ≡ ok tt
      → Confined environ node
  Fenced-Confined environ allowed node (broad, c, p, _) permitted =
      let raw = getenv environ (codes "TALOS_MCP_INSECURE_ALLOWED_NODES") in
      let (a, q, _) = parse-check_insecure_allowlist net raw broad c in
      let same : allowed ≡ some a = ok_same (sym p ∙ q) in
      let passed : check_node net (some a) node ≡ ok tt =
        subst (λ x. check_node net x node ≡ ok tt) same permitted in
      let (e, m, f) =
        matches_some-In net (split (trim_space raw) b',') node
          (sym (check_node_exact net raw a node q) ∙ ap is_ok passed) in
      let (_, _, within, _) = check_insecure_allowlist_sound net raw broad c in
      (
        e,
        m,
        In-All (λ x. WithinCeiling net (trim_space x)) (split (trim_space raw) b',') e within m,
        f,
      )

  -- On a server that has started, a maintenance-mode config replacement is refused without a call that
  -- changes a node, or makes one such call, to an address for which an entry of
  -- TALOS_MCP_INSECURE_ALLOWED_NODES stands, and that entry is an address or a range within the ceiling.
  pub maintenance-Confined :
      (disk : Disk) (env : Env) (parse_duration : Text → Result Text ℕ)
      (new_client : Result Text (Unit {0})) (environ : Environment) (s : Server)
      (args : ApplyConfigArgs) (hist : History)
      → start net parse_duration new_client environ ≡ ok s
      → args.insecure_flag ≡ true
      → Refused (handle_apply_config net disk env s.handlers args hist) hist
        ⊎ ((node : Text) × (fp : Option (List ℕ)) × (c : Call) × Confined environ node
            × Sent
                (handle_apply_config net disk env s.handlers args hist)
                hist
                (insecure node fp)
                c)
  maintenance-Confined disk env parse_duration new_client environ s args hist p on =
      elim (apply_config_insecure_guarded net disk env s.handlers args hist on) [
        | inl r ↦ inl r
        | inr (canon, fp, content, mode, (enabled, _, _, permitted, _), _, _, _, sent) ↦ inr (
          canon,
          fp,
          _,
          Fenced-Confined environ s.handlers.insecure_allowed_nodes canon
              (start-Fenced net parse_duration new_client environ s p enabled) permitted,
          sent,
        )
      ]
