-- ===== src/Tools/Lifecycle.antt =====
-- internal/tools/lifecycle.go: the handlers that act on whole nodes and services. (Those that change
-- a machine config are in `Tools.Config`.)
pub mod Guarded
pub mod Reboot
use talos_mcp_server.Common.{
  ℕ, zero, suc, ◌+◌, ◌-◌, ◌*◌, ◌/◌, ◌%◌, ◌^◌, ◌≤◌, ◌<◌, ◌≡◌, refl, sym, ap, ◌∙◌, ◌≢◌, ◌↔◌, ◌⊎◌, inl,
  inr, Bool, true, false, not, ◌&&◌, ◌||◌, Option, none, some, List, [], ◌∷◌, ◌++◌, map, append-nil,
  append_assoc, arith, ltb, leb, ◌==◌, if◌then◌else◌, Bool-cases, Option-cases, is_ok, Result-cases,
  Text, codes, length, take, drop, length-append, is_empty, All, All-append, In, In-append_left,
  In-append_right, In-append_cases, Result, ok, err,
}
use talos_mcp_server.Text.{
  text_eq, text_eq_iff, text_eq_refl, has_prefix, after_prefix, trim_prefix, has_prefix-append,
  has_prefix_split, contains_byte, Lacks, contains_byte-Lacks, trim_left, trim_right, trim_space,
  to_lower, to_lower_idem,
}
use talos_mcp_server.Net.{
  Ip, v4_in_v6_prefix, is_mapped, to4, cidr_mask, and_bytes, mask_ip, network, or_self, number_mask,
  same_masked, contains, byte_at, is_unspecified, is_loopback, is_link_local_unicast, is_multicast,
  Prefix, IpNet, Net,
}
use talos_mcp_server.Nodes.{with_nodes}
use talos_mcp_server.Version.{TalosVersion, VersionError, extract_from_image, validate_upgrade_path}
use talos_mcp_server.Tools.Effect.{
  History, M, continue, ◌>>=◌, ◌>>◌, pure, fail, emit, require, lift, plain_answer, logged_answer,
  call, call_logged, unlocking, with_lock, Refusal, finish, with_outcome, log_failed, log_failure,
  dialled, dial_insecure, closed, closing, is_mutation, mutation_of, mutations, default_true, Sent,
  Refused, Permitted, with_nodes_cases, Outcome, RebootMode, ApplyMode, UpgradeRequest,
  ResetRequest, ApplyRequest, Call, Channel, Event, FileError, ToolError, ConfigResource, Env,
  Handlers, outcome_ok, refused_enable, refused_confirm, refused_nodes_exclusive,
  refused_fp_without_insecure, refused_endpoint_empty, refused_endpoint_invalid, refused_allowlist,
  refused_fingerprint, refused_meta_key, dial_error, rpc_error, refused_args, default_mode,
  powercycle, force, auto, reboot_now, no_reboot, staged, try_mode, service_start, service_stop,
  service_restart, reboot, upgrade, rollback, reset, get_machine_config, apply_configuration,
  meta_read, meta_delete, meta_write, node_version, read_boot_id, authenticated, insecure, audit,
  audit_outcome, progress, rpc, log_error, log_warn, lock, unlock, dial, close,
  invalidate_version_cache, not_absolute, not_clean, lstat_failed, not_regular, open_failed,
  read_failed, too_large, confirm_required, nodes_required, service_name_required, image_required,
  unknown_action, unknown_mode, unknown_reboot_mode, node_refused, path_refused, one_node_only,
  patch_blocked, blocklist_active, config_file_refused, patch_unreadable, patch_failed, rpc_failed,
  dial_failed, fingerprint_without_insecure, insecure_disabled, nodes_exclusive, endpoint_missing,
  endpoint_invalid, endpoint_not_allowed, fingerprint_invalid, meta_key_invalid,
  meta_key_not_privileged,
}

pub record ServiceActionArgs : Type 0 where
  pub service_name : Text
  pub action : Text
  pub confirm : Bool
  pub nodes : List Text

pub record UpgradeArgs : Type 0 where
  pub nodes : List Text
  pub image : Text
  pub confirm : Bool
  pub preserve : Option Bool
  pub stage : Bool
  pub force_flag : Bool
  pub reboot_mode : Text

pub record RollbackArgs : Type 0 where
  pub nodes : List Text
  pub confirm : Bool

pub record ResetArgs : Type 0 where
  pub nodes : List Text
  pub confirm : Bool
  pub graceful : Option Bool
  pub reboot_flag : Bool
  pub system_labels_to_wipe : List Text

-- `switch args.Action`
pub service_call : Text → Text → Option Call
service_call action name =
    if text_eq action (codes "start")
    then some (service_start name)
    else if text_eq action (codes "stop")
    then some (service_stop name)
    else if text_eq action (codes "restart")
    then some (service_restart name)
    else none

-- `switch args.RebootMode`
pub upgrade_reboot_mode : Text → Option RebootMode
upgrade_reboot_mode mode =
    if text_eq mode (codes "powercycle")
    then some powercycle
    else if text_eq mode (codes "default") || is_empty mode
    then some default_mode
    else none

pub or_refuse : {A : Type 0} → Option A → ToolError → Result ToolError A
or_refuse none e = err e
or_refuse (some a) e = ok a

abbrev as_is : ToolError → ToolError
as_is e = e

-- The multi-node warning.
warn_if : Bool → M ToolError (Unit {0})
warn_if true h = (ok tt, log_warn (codes "talos_upgrade") ∷ h)
warn_if false h = (ok tt, h)

-- The last line of the decision matrix: both versions are known.
judge : TalosVersion → Result Text TalosVersion → M ToolError (Unit {0})
judge target (err e) h = (ok tt, log_warn (codes "talos_upgrade") ∷ h)
judge target (ok current) h = lift path_refused (validate_upgrade_path current target) h

module _ (net : Net) (env : Env) (h : Handlers) where
  pub handle_service_action : ServiceActionArgs → M ToolError Text
  unfolding or_refuse
  handle_service_action args = do
    emit (audit (codes "talos_service_action"))
    require args.confirm confirm_required
    require (not (is_empty args.service_name)) service_name_required
    targets ← lift node_refused (with_nodes net [] h.allowed_nodes args.nodes)
    c ←
        lift as_is
          (or_refuse (service_call args.action args.service_name) (unknown_action args.action))
    call_logged env (codes "talos_service_action") rpc_failed (authenticated targets) c

  check_target : List Text → Text → Result VersionError TalosVersion → M ToolError (Unit {0})
  unfolding judge
  check_target targets node (err e) hist = (ok tt, log_warn (codes "talos_upgrade") ∷ hist)
  check_target targets node (ok target) hist =
      judge target (env.version_reply hist targets node)
        (rpc (authenticated targets) (node_version node) ∷ hist)

  -- The upgrade path check, against the first node.
  check_upgrade_path : UpgradeArgs → List Text → List Text → M ToolError (Unit {0})
  unfolding check_target warn_if
  check_upgrade_path args targets [] = pure tt
  check_upgrade_path args targets (node ∷ rest) = do
    warn_if (not (is_empty rest))
    check_target targets node (extract_from_image args.image)

  pub handle_upgrade : UpgradeArgs → M ToolError Text
  unfolding or_refuse
  handle_upgrade args = do
    emit (audit (codes "talos_upgrade"))
    require args.confirm confirm_required
    require (not (is_empty args.nodes)) nodes_required
    require (not (is_empty args.image)) image_required
    mode ←
        lift as_is
          (or_refuse (upgrade_reboot_mode args.reboot_mode) (unknown_reboot_mode args.reboot_mode))
    targets ← lift node_refused (with_nodes net [] h.allowed_nodes args.nodes)
    if h.skip_version_check then pure tt else check_upgrade_path args targets args.nodes
    emit (progress (codes "Initiating upgrade") 1 2)
    resp ← call_logged env (codes "talos_upgrade") rpc_failed (authenticated targets) (
        upgrade (record {
          image = args.image;
          preserve = default_true args.preserve;
          stage = args.stage;
          force_upgrade = args.force_flag;
          reboot_mode = mode;
        }))
    emit invalidate_version_cache
    emit (progress (codes "Upgrade complete") 2 2)
    pure resp

  pub handle_rollback : RollbackArgs → M ToolError (Unit {0})
  handle_rollback args = do
    emit (audit (codes "talos_rollback"))
    require args.confirm confirm_required
    require (not (is_empty args.nodes)) nodes_required
    targets ← lift node_refused (with_nodes net [] h.allowed_nodes args.nodes)
    emit (progress (codes "Initiating rollback") 1 2)
    _ ← call_logged env (codes "talos_rollback") rpc_failed (authenticated targets) rollback
    emit invalidate_version_cache
    emit (progress (codes "Rollback initiated") 2 2)
    pure tt

  pub handle_reset : ResetArgs → M ToolError Text
  handle_reset args = do
    emit (audit (codes "talos_reset"))
    require args.confirm confirm_required
    require (not (is_empty args.nodes)) nodes_required
    targets ← lift node_refused (with_nodes net [] h.allowed_nodes args.nodes)
    emit (progress (codes "Initiating reset") 1 2)
    resp ← call_logged env (codes "talos_reset") rpc_failed (authenticated targets) (
        reset (record {
          graceful = default_true args.graceful;
          reboot_after = args.reboot_flag;
          labels = args.system_labels_to_wipe;
        }))
    emit (progress (codes "Reset initiated") 2 2)
    pure resp
