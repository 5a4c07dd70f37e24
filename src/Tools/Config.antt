-- ===== src/Tools/Config.antt =====
-- internal/tools/lifecycle.go and helpers.go: the handlers that change a machine config, and the
-- gate of the maintenance-mode connection.
pub mod Guarded
pub mod Insecurely
pub mod Audit
pub mod Serial
use talos_mcp_server.Common.{
  ℕ, zero, suc, ◌+◌, ◌-◌, ◌*◌, ◌/◌, ◌%◌, ◌^◌, ◌≤◌, ◌<◌, ◌≡◌, refl, sym, ap, ◌∙◌, ◌≢◌, ◌↔◌, ◌⊎◌, inl,
  inr, Bool, true, false, not, ◌&&◌, ◌||◌, Option, none, some, List, [], ◌∷◌, ◌++◌, map, append-nil,
  append_assoc, arith, ltb, leb, ◌==◌, if◌then◌else◌, Bool-cases, if_cases, Option-cases, is_ok,
  Result-cases, Text, codes, length, take, drop, length-append, is_empty, All, All-append, In,
  In-append_left, In-append_right, In-append_cases, Result, ok, err,
}
use talos_mcp_server.Text.{
  text_eq, text_eq_iff, text_eq_refl, has_prefix, after_prefix, trim_prefix, has_prefix-append,
  has_prefix_split, contains_byte, Lacks, contains_byte-Lacks, trim_left, trim_right, trim_space,
  to_lower, to_lower_idem,
}
use talos_mcp_server.Net.{
  Ip, v4_in_v6_prefix, is_mapped, to4, cidr_mask, and_bytes, mask_ip, network, or_self, number_mask,
  same_masked, contains, byte_at, is_unspecified, is_loopback, is_link_local_unicast, is_multicast,
  Prefix, IpNet, Net,
}
use talos_mcp_server.Nodes.{check_node, with_nodes}
use talos_mcp_server.Insecure.{canonical_ip, parse_fingerprint, FingerprintError, IpError}
use talos_mcp_server.Blocklist.{Decoder, check_blocked_paths}
use talos_mcp_server.Tools.ConfigFile.{Disk, read_config_file}
use talos_mcp_server.Tools.Effect.{
  History, M, continue, ◌>>=◌, ◌>>◌, pure, fail, emit, require, lift, plain_answer, logged_answer,
  call, call_logged, unlocking, with_lock, Refusal, finish, with_outcome, log_failed, log_failure,
  dialled, dial_insecure, closed, closing, is_mutation, mutation_of, mutations, default_true, Sent,
  Refused, Permitted, with_nodes_cases, Outcome, RebootMode, ApplyMode, UpgradeRequest,
  ResetRequest, ApplyRequest, Call, Channel, Event, FileError, ToolError, ConfigResource, Env,
  Handlers, outcome_ok, refused_enable, refused_confirm, refused_nodes_exclusive,
  refused_fp_without_insecure, refused_endpoint_empty, refused_endpoint_invalid, refused_allowlist,
  refused_fingerprint, refused_meta_key, dial_error, rpc_error, refused_args, default_mode,
  powercycle, force, auto, reboot_now, no_reboot, staged, try_mode, service_start, service_stop,
  service_restart, reboot, upgrade, rollback, reset, get_machine_config, apply_configuration,
  meta_read, meta_delete, meta_write, node_version, read_boot_id, version, service_list, processes,
  containers, resolve_kind, cosi_list, cosi_get, authenticated, insecure, audit, audit_outcome,
  progress, rpc, log_error, log_warn, lock, unlock, dial, close, invalidate_version_cache,
  not_absolute, not_clean, lstat_failed, not_regular, open_failed, read_failed, too_large,
  confirm_required, nodes_required, service_name_required, image_required, unknown_action,
  unknown_mode, unknown_reboot_mode, node_refused, path_refused, one_node_only, patch_blocked,
  blocklist_active, config_file_refused, patch_unreadable, patch_failed, rpc_failed, dial_failed,
  fingerprint_without_insecure, insecure_disabled, nodes_exclusive, endpoint_missing,
  endpoint_invalid, endpoint_not_allowed, fingerprint_invalid, meta_key_invalid, marshal_failed,
  meta_key_not_privileged,
}

pub record PatchConfigArgs : Type 0 where
  pub patch : Text
  pub mode : Text
  pub dry_run : Option Bool
  pub confirm : Bool
  pub nodes : List Text

pub record ApplyConfigArgs : Type 0 where
  pub config_file : Text
  pub mode : Text
  pub dry_run : Option Bool
  pub confirm : Bool
  pub nodes : List Text
  pub insecure_flag : Bool
  pub endpoint : Text
  pub cert_fingerprint : Text

-- resolveDryRun
pub resolve_dry_run : Option Bool → Bool
resolve_dry_run d = default_true d

pub parse_apply_config_mode : Text → Option ApplyMode
parse_apply_config_mode mode =
    if text_eq mode (codes "reboot")
    then some reboot_now
    else if text_eq mode (codes "no_reboot")
    then some no_reboot
    else if text_eq mode (codes "staged")
    then some staged
    else if text_eq mode (codes "try")
    then some try_mode
    else if text_eq mode (codes "auto") || is_empty mode
    then some auto
    else none

-- The key of the lock of a node.
pub node_id : List Text → Text
node_id [] = codes "<default>"
node_id (n ∷ ns) = n

or_else : {E A : Type 0} → E → Option A → Result E A
or_else e none = err e
or_else e (some a) = ok a

body_of : Env → Option Text → Result ToolError Text
body_of env none = err (patch_failed (codes "marshal"))
body_of env (some spec) = or_else (patch_failed (codes "unmarshal")) (env.yaml_string spec)

pub extract_machine_config_body : Env → ConfigResource → Result ToolError Text
unfolding or_else body_of
extract_machine_config_body env mc =
    if mc.annotations_empty
    then if mc.is_protobuf
      then or_else (patch_failed (codes "marshal protobuf resource")) mc.protobuf_spec
      else or_else (patch_failed (codes "marshal")) mc.yaml_spec
    else body_of env mc.yaml_spec

abbrev as_is : ToolError → ToolError
as_is e = e

-- A failure with an outcome.
abbrev pub refuse : {E : Type 0} → Outcome → (E → ToolError) → E → Refusal
refuse o f e = (o, f e)

-- The optional fingerprint.
pub checked_fingerprint : Text → Result FingerprintError (Option (List ℕ))
checked_fingerprint s =
    if is_empty s
    then ok none
    else elim (parse_fingerprint s) [ ok bytes ↦ ok (some bytes) | err e ↦ err e ]

module _ (net : Net) (h : Handlers) where
  -- The gates of canonicalizeAndCheckInsecure, in its order. No step of it touches the history.
  pub canonicalize_and_check_insecure : Text → Text → Bool → M Refusal (Text × Option (List ℕ))
  canonicalize_and_check_insecure endpoint fingerprint nodes_provided = do
    require h.enable_insecure (refused_enable, insecure_disabled)
    require (not nodes_provided) (refused_nodes_exclusive, nodes_exclusive)
    require (not (is_empty endpoint)) (refused_endpoint_empty, endpoint_missing)
    canon ← lift (refuse refused_endpoint_invalid endpoint_invalid) (canonical_ip net endpoint)
    lift (refuse refused_allowlist λ e. endpoint_not_allowed canon)
        (check_node net h.insecure_allowed_nodes canon)
    fp ← lift (refuse refused_fingerprint fingerprint_invalid) (checked_fingerprint fingerprint)
    pure (canon, fp)

module _ (net : Net) (d : Decoder) (env : Env) (h : Handlers) where
  -- Fetch, merge and apply, behind the lock of the node.
  merge_and_apply : List Text → Text → ApplyMode → Bool → M ToolError Text
  merge_and_apply targets patch mode dry = do
    emit (progress (codes "Fetching current machine config") 1 3)
    mc ← call env rpc_failed (authenticated targets) get_machine_config
    body ← lift as_is (extract_machine_config_body env (env.config_resource mc))
    patched ← lift patch_failed (env.apply_patch patch body)
    emit (progress (codes "Applying configuration") 2 3)
    resp ←
        call_logged env (codes "talos_patch_config") rpc_failed (authenticated targets)
          (apply_configuration (record { config = patched; mode = mode; dry_run = dry }))
    emit (progress (codes "Configuration applied") 3 3)
    pure resp

  pub handle_patch_config : PatchConfigArgs → M ToolError Text
  unfolding merge_and_apply or_else
  handle_patch_config args = do
    emit (audit (codes "talos_patch_config"))
    require (leb (length args.nodes) 1) (one_node_only (length args.nodes))
    require (resolve_dry_run args.dry_run || args.confirm) confirm_required
    lift patch_blocked (check_blocked_paths d args.patch h.blocked_config_paths)
    targets ← lift node_refused (with_nodes net [] h.allowed_nodes args.nodes)
    mode ← lift as_is (or_else (unknown_mode args.mode) (parse_apply_config_mode args.mode))
    patch ← lift patch_unreadable (env.load_patch args.patch)
    with_lock (node_id args.nodes)
        (merge_and_apply targets patch mode (resolve_dry_run args.dry_run))

module _ (net : Net) (disk : Disk) (env : Env) (h : Handlers) where
  send_config : Channel → Text → ApplyMode → Bool → M Refusal Text
  send_config channel data_bytes mode dry =
      call_logged env (codes "talos_apply_config") (refuse rpc_error rpc_failed) channel
        (apply_configuration (record { config = data_bytes; mode = mode; dry_run = dry }))

  -- The maintenance-mode path.
  pub handle_apply_config_insecure : ApplyConfigArgs → M Refusal Text
  unfolding or_else send_config
  handle_apply_config_insecure args = do
    gate ←
        canonicalize_and_check_insecure net h args.endpoint args.cert_fingerprint
          (not (is_empty args.nodes))
    require (resolve_dry_run args.dry_run || args.confirm) (refused_confirm, confirm_required)
    data_bytes ←
        lift (refuse refused_args config_file_refused) (read_config_file disk args.config_file)
    mode ←
        lift (refuse refused_args unknown_mode)
          (or_else args.mode (parse_apply_config_mode args.mode))
    with_lock (codes "insecure:" ++ gate.0) (do
      emit (progress (codes "Applying configuration (maintenance mode)") 1 2)
      log_failure (codes "talos_apply_config") (dial_insecure env gate.0 gate.1)
      closing (do
        resp ← send_config (insecure gate.0 gate.1) data_bytes mode (resolve_dry_run args.dry_run)
        emit (progress (codes "Configuration applied (maintenance mode)") 2 2)
        pure resp))

  -- The mTLS path.
  pub handle_apply_config_authenticated : ApplyConfigArgs → M Refusal Text
  unfolding or_else send_config
  handle_apply_config_authenticated args = do
    require (is_empty h.blocked_config_paths) (refused_args, blocklist_active)
    require (leb (length args.nodes) 1) (refused_args, one_node_only (length args.nodes))
    require (resolve_dry_run args.dry_run || args.confirm) (refused_confirm, confirm_required)
    targets ←
        lift (refuse refused_allowlist node_refused) (with_nodes net [] h.allowed_nodes args.nodes)
    data_bytes ←
        lift (refuse refused_args config_file_refused) (read_config_file disk args.config_file)
    mode ←
        lift (refuse refused_args unknown_mode)
          (or_else args.mode (parse_apply_config_mode args.mode))
    with_lock (node_id args.nodes) (do
      emit (progress (codes "Applying configuration") 1 2)
      resp ← send_config (authenticated targets) data_bytes mode (resolve_dry_run args.dry_run)
      emit (progress (codes "Configuration applied") 2 2)
      pure resp)

  -- The body behind the deferred audit outcome.
  pub checked_apply_config : ApplyConfigArgs → M Refusal Text
  checked_apply_config args = do
    require (is_empty args.cert_fingerprint || args.insecure_flag)
        (refused_fp_without_insecure, fingerprint_without_insecure)
    if args.insecure_flag
        then handle_apply_config_insecure args
        else handle_apply_config_authenticated args

  pub handle_apply_config : ApplyConfigArgs → M ToolError Text
  handle_apply_config args = do
    emit (audit (codes "talos_apply_config"))
    with_outcome (codes "talos_apply_config") (checked_apply_config args)
