-- ===== src/Tools/Lifecycle/Guarded.antt =====
-- What must hold before a lifecycle handler changes a node.
use talos_mcp_server.Common.{
  ◌≡◌, refl, ap, ◌∙◌, ◌≢◌, ◌⊎◌, inl, inr, true, false, some, List, [], ◌∷◌, arith, Bool-cases,
  Option-cases, Text, codes, is_empty, ok, err,
}
use talos_mcp_server.Net.{Net}
use talos_mcp_server.Version.{TalosVersion, VersionError, extract_from_image, validate_upgrade_path}
use talos_mcp_server.Tools.Effect.{
  History, is_mutation, mutations, default_true, Sent, Refused, Permitted, with_nodes_cases,
  RebootMode, Call, Env, Handlers, upgrade, rollback, reset, authenticated, audit, path_refused,
}
use talos_mcp_server.Tools.Lifecycle.{
  ServiceActionArgs, UpgradeArgs, RollbackArgs, ResetArgs, service_call, upgrade_reboot_mode,
  check_upgrade_path, handle_service_action, handle_upgrade, handle_rollback, handle_reset,
}

head_or : Text → List Text → Text
head_or d [] = d
head_or d (n ∷ ns) = n

service_call_mutates :
    (action name : Text) (c : Call) → service_call action name ≡ some c → is_mutation c ≡ true
unfolding service_call
service_call_mutates action name c e = ground arith

module _ (net : Net) (env : Env) (h : Handlers) where
  -- A reset that is not refused was confirmed, names its nodes, and all of them are permitted; it
  -- makes one mutating call, to just those nodes and with the wipe options that were asked for
  -- (graceful if the option is omitted). A refused one makes none.
  pub reset_guarded :
      (args : ResetArgs) (hist : History)
      → Refused (handle_reset net env h args hist) hist
        ⊎ ((args.confirm ≡ true)
            × (args.nodes ≢ [])
            × Permitted net h.allowed_nodes args.nodes
            × Sent (handle_reset net env h args hist) hist (authenticated args.nodes) (
                reset (record {
                  graceful = default_true args.graceful;
                  reboot_after = args.reboot_flag;
                  labels = args.system_labels_to_wipe;
                })))
  unfolding handle_reset
  reset_guarded args hist = ground (arith, with_nodes_cases net h.allowed_nodes args.nodes)

  -- A rollback that is not refused was confirmed, names its nodes, all permitted, and makes the one
  -- rollback call to just those. A refused one makes none.
  rollback_guarded :
      (args : RollbackArgs) (hist : History)
      → Refused (handle_rollback net env h args hist) hist
        ⊎ ((args.confirm ≡ true)
            × (args.nodes ≢ [])
            × Permitted net h.allowed_nodes args.nodes
            × Sent (handle_rollback net env h args hist) hist (authenticated args.nodes) rollback)
  unfolding handle_rollback
  rollback_guarded args hist = ground (arith, with_nodes_cases net h.allowed_nodes args.nodes)

  -- A service action that is not refused was confirmed, names a service and a known action, and its
  -- nodes are all permitted; it makes the one call of that action to just those nodes (none: the
  -- default ones). A refused one makes none.
  service_action_guarded :
      (args : ServiceActionArgs) (hist : History)
      → Refused (handle_service_action net env h args hist) hist
        ⊎ ((args.confirm ≡ true)
            × (args.service_name ≢ [])
            × Permitted net h.allowed_nodes args.nodes
            × (c : Call) × (service_call args.action args.service_name ≡ some c)
            × Sent (handle_service_action net env h args hist) hist (authenticated args.nodes) c)
  unfolding handle_service_action
  service_action_guarded args hist =
      elim (Option-cases (service_call args.action args.service_name)) [
        | inl e ↦ ground (arith, with_nodes_cases net h.allowed_nodes args.nodes)
        | inr (c, e) ↦ ground (
          arith,
          with_nodes_cases net h.allowed_nodes args.nodes,
          service_call_mutates args.action args.service_name c e,
        )
      ]

  check-mutations :
      (args : UpgradeArgs) (targets nodes : List Text) (hist : History)
      → mutations (check_upgrade_path net env h args targets nodes hist).1 ≡ mutations hist
  unfolding check_upgrade_path
  check-mutations args targets [] hist = refl
  check-mutations args targets (n ∷ ns) hist = ground arith

  -- An upgrade that is not refused was confirmed, names its nodes, all permitted, an image and a known
  -- reboot mode; it makes one mutating call, to just those nodes and with the options that were asked
  -- for (/var preserved if the option is omitted). A refused one makes none.
  pub upgrade_guarded :
      (args : UpgradeArgs) (hist : History)
      → Refused (handle_upgrade net env h args hist) hist
        ⊎ ((args.confirm ≡ true)
            × (args.nodes ≢ [])
            × (args.image ≢ [])
            × Permitted net h.allowed_nodes args.nodes
            × (mode : RebootMode) × (upgrade_reboot_mode args.reboot_mode ≡ some mode)
            × Sent (handle_upgrade net env h args hist) hist (authenticated args.nodes) (
                upgrade (record {
                  image = args.image;
                  preserve = default_true args.preserve;
                  stage = args.stage;
                  force_upgrade = args.force_flag;
                  reboot_mode = mode;
                })))
  unfolding handle_upgrade
  upgrade_guarded args hist = elim (Option-cases (upgrade_reboot_mode args.reboot_mode)) [
    | inl e ↦ ground arith
    | inr (mode, e) ↦ ground (
      arith,
      with_nodes_cases net h.allowed_nodes args.nodes,
      check-mutations args args.nodes args.nodes (audit (codes "talos_upgrade") ∷ hist),
    )
  ]

  check_refuses :
      (args : UpgradeArgs) (nodes : List Text) (node : Text) (rest : List Text)
      (current target : TalosVersion) (e : VersionError) (hist : History)
      → nodes ≡ node ∷ rest
      → ((past : History) → env.version_reply past nodes node ≡ ok current)
      → extract_from_image args.image ≡ ok target
      → validate_upgrade_path current target ≡ err e
      → (check_upgrade_path net env h args nodes nodes hist).0 ≡ err (path_refused e)
  unfolding check_upgrade_path head_or
  check_refuses args [] node rest current target e hist n v x p = cc
  check_refuses args (m ∷ ms) node rest current target e hist n v x p =
      let w : (past : History) → env.version_reply past (m ∷ ms) m ≡ ok current =
        λ past. ap (env.version_reply past (m ∷ ms)) (ap (head_or m) n) ∙ v past in
      elim (Bool-cases (is_empty ms)) [
        | inl f ↦ rw (f, x) (rw w (rw p refl))
        | inr f ↦ rw (f, x) (rw w (rw p refl))
      ]

  -- While the version check is on, an upgrade whose image names a version that the first node must not
  -- go to from the version it reports makes no mutating call and fails.
  pub upgrade_path_enforced :
      (args : UpgradeArgs) (node : Text) (rest : List Text) (current target : TalosVersion)
      (e : VersionError) (hist : History)
      → h.skip_version_check ≡ false
      → args.nodes ≡ node ∷ rest
      → ((past : History) → env.version_reply past args.nodes node ≡ ok current)
      → extract_from_image args.image ≡ ok target
      → validate_upgrade_path current target ≡ err e
      → Refused (handle_upgrade net env h args hist) hist
  unfolding handle_upgrade
  upgrade_path_enforced args node rest current target e hist s n v x p =
      let before = audit (codes "talos_upgrade") ∷ hist in
      ground (
        arith,
        with_nodes_cases net h.allowed_nodes args.nodes,
        check-mutations args args.nodes args.nodes before,
        check_refuses args args.nodes node rest current target e before n v x p,
      )
