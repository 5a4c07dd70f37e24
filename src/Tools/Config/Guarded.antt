-- ===== src/Tools/Config/Guarded.antt =====
-- What must hold before a machine config is changed.
use talos_mcp_server.Common.{
  ◌≤◌, ◌≡◌, ◌⊎◌, inl, inr, Bool, true, false, ◌||◌, some, List, [], ◌∷◌, arith, Option-cases,
  Result-cases, Text, codes, length, ok,
}
use talos_mcp_server.Net.{Net}
use talos_mcp_server.Tools.Effect.{
  History, Sent, Refused, Permitted, with_nodes_cases, ApplyMode, Env, Handlers, get_machine_config,
  apply_configuration, authenticated, audit, progress, lock,
}
use talos_mcp_server.Tools.Config.{
  PatchConfigArgs, ApplyConfigArgs, resolve_dry_run, parse_apply_config_mode, node_id,
  extract_machine_config_body, handle_patch_config, handle_apply_config_authenticated,
  handle_apply_config, checked_apply_config, merge_and_apply, or_else, send_config,
}
use talos_mcp_server.Blocklist.{Decoder, check_blocked_paths}
use talos_mcp_server.Tools.ConfigFile.{Disk, read_config_file}

-- The answer that a run was based on is a config, and the patch was applied to its body.
abbrev pub MergedFrom : Env → List Text → Text → Text → Type 0
MergedFrom env nodes patch merged =
    (past : History) × (mc : Text) × (body : Text) × (loaded : Text) × (env.reply past
        (authenticated nodes) get_machine_config
      ≡ ok mc)
    × (extract_machine_config_body env (env.config_resource mc) ≡ ok body)
    × (env.load_patch patch ≡ ok loaded)
    × (env.apply_patch loaded body ≡ ok merged)

module _ (net : Net) (d : Decoder) (env : Env) (h : Handlers) where
  merge_and_apply_cases :
      (nodes : List Text) (loaded : Text) (mode : ApplyMode) (dry : Bool) (hist : History)
      → Refused (merge_and_apply net d env h nodes loaded mode dry hist) hist
        ⊎ ((past : History) × (mc : Text) × (body : Text) × (merged : Text) × (env.reply past
                (authenticated nodes)
                get_machine_config
              ≡ ok mc)
            × (extract_machine_config_body env (env.config_resource mc) ≡ ok body)
            × (env.apply_patch loaded body ≡ ok merged)
            × Sent
                (merge_and_apply net d env h nodes loaded mode dry hist)
                hist
                (authenticated nodes)
                (apply_configuration (record { config = merged; mode = mode; dry_run = dry })))
  unfolding merge_and_apply
  merge_and_apply_cases nodes loaded mode dry hist =
      let past : History = progress (codes "Fetching current machine config") 1 3 ∷ hist in
      elim (Result-cases (env.reply past (authenticated nodes) get_machine_config)) [
        | inr (e, p) ↦ inl (ground arith)
        | inl (mc, p) ↦
            elim (Result-cases (extract_machine_config_body env (env.config_resource mc))) [
              | inr (e, q) ↦ inl (ground arith)
              | inl (body, q) ↦ elim (Result-cases (env.apply_patch loaded body)) [
                | inr (e, r) ↦ inl (ground arith)
                | inl (merged, r) ↦ inr (past, mc, body, merged, p, q, r, ground arith)
              ]
            ]
      ]

  -- A config patch that is not refused is a dry run or was confirmed, names at most one node, which
  -- is permitted, passes the path blocklist and has a known mode; it makes one mutating call, which
  -- applies to that node the given patch to the config that the same node answered with, and is a dry
  -- run unless the arguments say otherwise. A refused one makes none.
  pub patch_config_guarded :
      (args : PatchConfigArgs) (hist : History)
      → Refused (handle_patch_config net d env h args hist) hist
        ⊎ ((resolve_dry_run args.dry_run || args.confirm ≡ true)
            × (length args.nodes ≤ 1)
            × (check_blocked_paths d args.patch h.blocked_config_paths ≡ ok tt)
            × Permitted net h.allowed_nodes args.nodes
            × (mode : ApplyMode) × (parse_apply_config_mode args.mode ≡ some mode)
            × (merged : Text) × MergedFrom env args.nodes args.patch merged
            × Sent (handle_patch_config net d env h args hist) hist (authenticated args.nodes) (
                apply_configuration (record {
                  config = merged;
                  mode = mode;
                  dry_run = resolve_dry_run args.dry_run;
                })))
  unfolding handle_patch_config or_else
  patch_config_guarded args hist =
      let before = lock (node_id args.nodes) ∷ audit (codes "talos_patch_config") ∷ hist in
      elim (Option-cases (parse_apply_config_mode args.mode)) [
        | inl e ↦ inl (ground (arith, with_nodes_cases net h.allowed_nodes args.nodes))
        | inr (mode, e) ↦ elim (Result-cases (env.load_patch args.patch)) [
          | inr (f, p) ↦ inl (ground (arith, with_nodes_cases net h.allowed_nodes args.nodes))
          | inl (loaded, p) ↦ ground (
            arith,
            with_nodes_cases net h.allowed_nodes args.nodes,
            merge_and_apply_cases args.nodes loaded mode (resolve_dry_run args.dry_run) before,
          )
        ]
      ]

module _ (net : Net) (disk : Disk) (env : Env) (h : Handlers) where
  -- What the mTLS path of a config replacement asks before it sends.
  abbrev pub Replaceable : ApplyConfigArgs → Text → ApplyMode → Type 0
  Replaceable args content mode =
      (h.blocked_config_paths ≡ [])
      × (resolve_dry_run args.dry_run || args.confirm ≡ true)
      × (length args.nodes ≤ 1)
      × Permitted net h.allowed_nodes args.nodes
      × (read_config_file disk args.config_file ≡ ok content)
      × (parse_apply_config_mode args.mode ≡ some mode)

  authenticated_guarded :
      (args : ApplyConfigArgs) (hist : History)
      → Refused (handle_apply_config_authenticated net disk env h args hist) hist
        ⊎ ((content : Text) × (mode : ApplyMode) × Replaceable args content mode
            × Sent
                (handle_apply_config_authenticated net disk env h args hist)
                hist
                (authenticated args.nodes)
                (apply_configuration (record {
                  config = content;
                  mode = mode;
                  dry_run = resolve_dry_run args.dry_run;
                })))
  unfolding handle_apply_config_authenticated send_config or_else
  authenticated_guarded args hist = elim (Option-cases (parse_apply_config_mode args.mode)) [
    | inl e ↦ inl (ground (arith, with_nodes_cases net h.allowed_nodes args.nodes))
    | inr (mode, e) ↦ elim (Result-cases (read_config_file disk args.config_file)) [
      | inr (f, p) ↦ inl (ground (arith, with_nodes_cases net h.allowed_nodes args.nodes))
      | inl (content, p) ↦ ground (arith, with_nodes_cases net h.allowed_nodes args.nodes)
    ]
  ]

  -- A config replacement over mTLS that is not refused: no path blocklist is set, it is a dry run or was
  -- confirmed, names at most one node, which is permitted, and its file is readable and its mode known;
  -- it makes one mutating call, of that file to that node. A refused one makes none.
  pub apply_config_guarded :
      (args : ApplyConfigArgs) (hist : History)
      → args.insecure_flag ≡ false
      → Refused (handle_apply_config net disk env h args hist) hist
        ⊎ ((content : Text) × (mode : ApplyMode) × Replaceable args content mode
            × Sent (handle_apply_config net disk env h args hist) hist (authenticated args.nodes) (
                apply_configuration (record {
                  config = content;
                  mode = mode;
                  dry_run = resolve_dry_run args.dry_run;
                })))
  unfolding handle_apply_config checked_apply_config
  apply_config_guarded args hist s =
      ground (arith, authenticated_guarded args (audit (codes "talos_apply_config") ∷ hist))
