-- ===== src/Register/Calls.antt =====
-- A call of a registered tool, for the handlers whose calls of the API stand in the history.
pub mod ReadOnly
mod Tests
use talos_mcp_server.Common.{
  ℕ, zero, suc, ◌+◌, ◌-◌, ◌*◌, ◌/◌, ◌%◌, ◌^◌, ◌≤◌, ◌<◌, ◌≡◌, refl, sym, ap, ◌∙◌, ◌≢◌, ◌↔◌, ◌⊎◌, inl,
  inr, Bool, true, false, not, ◌&&◌, ◌||◌, Option, none, some, List, [], ◌∷◌, ◌++◌, map, append-nil,
  append_assoc, arith, ltb, leb, ◌==◌, if◌then◌else◌, Bool-cases, if_cases, Option-cases, is_ok,
  Result-cases, Text, codes, length, take, drop, length-append, is_empty, All, All-append, In,
  In-append_left, In-append_right, In-append_cases, Result, ok, err,
}
use talos_mcp_server.Net.{
  Ip, v4_in_v6_prefix, is_mapped, to4, cidr_mask, and_bytes, mask_ip, network, or_self, number_mask,
  same_masked, contains, byte_at, is_unspecified, is_loopback, is_link_local_unicast, is_multicast,
  Prefix, IpNet, Net,
}
use talos_mcp_server.Blocklist.{Decoder}
use talos_mcp_server.Tools.Effect.{
  History, M, continue, ◌>>=◌, ◌>>◌, pure, fail, emit, require, lift, plain_answer, logged_answer,
  call, call_logged, unlocking, with_lock, Refusal, finish, with_outcome, log_failed, log_failure,
  dialled, dial_insecure, closed, closing, is_mutation, mutation_of, mutations, default_true, Sent,
  Refused, Permitted, with_nodes_cases, Outcome, RebootMode, ApplyMode, UpgradeRequest,
  ResetRequest, ApplyRequest, Call, Channel, Event, FileError, ToolError, ConfigResource, Env,
  Handlers, outcome_ok, refused_enable, refused_confirm, refused_nodes_exclusive,
  refused_fp_without_insecure, refused_endpoint_empty, refused_endpoint_invalid, refused_allowlist,
  refused_fingerprint, refused_meta_key, dial_error, rpc_error, refused_args, default_mode,
  powercycle, force, auto, reboot_now, no_reboot, staged, try_mode, service_start, service_stop,
  service_restart, reboot, upgrade, rollback, reset, get_machine_config, apply_configuration,
  meta_read, meta_delete, meta_write, node_version, read_boot_id, version, service_list, processes,
  containers, resolve_kind, cosi_list, cosi_get, authenticated, insecure, audit, audit_outcome,
  progress, rpc, log_error, log_warn, lock, unlock, dial, close, invalidate_version_cache,
  not_absolute, not_clean, lstat_failed, not_regular, open_failed, read_failed, too_large,
  confirm_required, nodes_required, service_name_required, image_required, unknown_action,
  unknown_mode, unknown_reboot_mode, node_refused, path_refused, one_node_only, patch_blocked,
  blocklist_active, config_file_refused, patch_unreadable, patch_failed, rpc_failed, dial_failed,
  fingerprint_without_insecure, insecure_disabled, nodes_exclusive, endpoint_missing,
  endpoint_invalid, endpoint_not_allowed, fingerprint_invalid, meta_key_invalid, marshal_failed,
  meta_key_not_privileged,
}
use talos_mcp_server.Tools.ConfigFile.{Disk}
use talos_mcp_server.Tools.Lifecycle.{
  ServiceActionArgs, UpgradeArgs, RollbackArgs, ResetArgs, handle_service_action, handle_upgrade,
  handle_rollback, handle_reset,
}
use talos_mcp_server.Tools.Lifecycle.Reboot.{Clock, RebootArgs, NodeOutcome, handle_reboot}
use talos_mcp_server.Tools.Config.{
  PatchConfigArgs, ApplyConfigArgs, handle_patch_config, handle_apply_config,
}
use talos_mcp_server.Tools.Meta.{MetaArgs, handle_meta}
use talos_mcp_server.Tools.Queries.{
  default_container_namespace, over_insecure, over_mtls, ask_version, checked_version,
  handle_version, marshal_all, get_one, get_list, get_resource_from_cosi, checked_get_resource,
  handle_get_resource, handle_services, handle_containers, handle_processes,
  handle_resource_definitions, VersionArgs, ContainersArgs, GetResourceArgs, Cosi,
}
use talos_mcp_server.Register.{Handler, Tool, find_tool}

-- What stands outside the server.
pub record World : Type 0 where
  pub net : Net
  pub decoder : Decoder
  pub disk : Disk
  pub env : Env
  pub cosi : Cosi
  pub clock : Clock
  pub reserved_keys : List ℕ
  -- the order in which the goroutines of a reboot report
  pub arrival : List NodeOutcome → List NodeOutcome

-- The decoded arguments of a call.
pub data Arguments : Type 0 where
  no_args : Arguments
  get_resource_args : GetResourceArgs → Arguments
  version_args : VersionArgs → Arguments
  nodes_args : List Text → Arguments
  containers_args : ContainersArgs → Arguments
  service_action_args : ServiceActionArgs → Arguments
  reboot_args : RebootArgs → Arguments
  upgrade_args : UpgradeArgs → Arguments
  rollback_args : RollbackArgs → Arguments
  patch_config_args : PatchConfigArgs → Arguments
  reset_args : ResetArgs → Arguments
  apply_config_args : ApplyConfigArgs → Arguments
  meta_args : MetaArgs → Arguments

-- Whether the call succeeded.
abbrev pub answered : {E A : Type 0} → Result E A × History → Bool × History
answered (ok a, h) = (true, h)
answered (err e, h) = (false, h)

module _ (w : World) (h : Handlers) where
  -- Arguments that do not fit the tool's schema are refused by the MCP server. The handlers of health,
  -- logs, dmesg, events, etcd, snapshots, files and validation have models without a history of
  -- calls, and are left out here: their calls are taken to do nothing.
  pub serve : Handler → Arguments → History → Bool × History
  serve Handler.resource_definitions no_args hist =
      answered (handle_resource_definitions w.net w.cosi w.env h hist)
  serve Handler.get_resource (get_resource_args a) hist =
      answered (handle_get_resource w.net w.cosi w.env h a hist)
  serve Handler.version (version_args a) hist =
      answered (handle_version w.net w.cosi w.env h a hist)
  serve Handler.services (nodes_args a) hist =
      answered (handle_services w.net w.cosi w.env h a hist)
  serve Handler.containers (containers_args a) hist =
      answered (handle_containers w.net w.cosi w.env h a hist)
  serve Handler.processes (nodes_args a) hist =
      answered (handle_processes w.net w.cosi w.env h a hist)
  serve Handler.service_action (service_action_args a) hist =
      answered (handle_service_action w.net w.env h a hist)
  serve Handler.reboot (reboot_args a) hist =
      answered (handle_reboot w.arrival w.net w.clock w.env h a hist)
  serve Handler.upgrade (upgrade_args a) hist = answered (handle_upgrade w.net w.env h a hist)
  serve Handler.rollback (rollback_args a) hist = answered (handle_rollback w.net w.env h a hist)
  serve Handler.patch_config (patch_config_args a) hist =
      answered (handle_patch_config w.net w.decoder w.env h a hist)
  serve Handler.reset (reset_args a) hist = answered (handle_reset w.net w.env h a hist)
  serve Handler.apply_config (apply_config_args a) hist =
      answered (handle_apply_config w.net w.disk w.env h a hist)
  serve Handler.meta (meta_args a) hist =
      answered (handle_meta w.reserved_keys w.net w.env h a hist)
  serve _ _ hist = (false, hist)

  pub serve_found : Option Tool → Arguments → History → Bool × History
  serve_found none args hist = (false, hist)
  serve_found (some t) args hist = serve t.handler args hist

  pub call_tool : List Tool → Text → Arguments → History → Bool × History
  unfolding serve serve_found
  call_tool tools name args hist = serve_found (find_tool name tools) args hist
