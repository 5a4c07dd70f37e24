-- ===== src/Tools/Queries.antt =====
-- talos_version, talos_services, talos_containers and talos_processes of internal/tools/system.go, and
-- talos_get and talos_resource_definitions of internal/tools/resources.go: the handlers that ask one
-- thing of the API and forward the answer.
pub mod Bodies
pub mod Gated
pub mod Quiet
pub mod Tests
use talos_mcp_server.Common.{
  ℕ, zero, suc, ◌+◌, ◌-◌, ◌*◌, ◌/◌, ◌%◌, ◌^◌, ◌≤◌, ◌<◌, ◌≡◌, refl, sym, ap, ◌∙◌, ◌≢◌, ◌↔◌, ◌⊎◌, inl,
  inr, Bool, true, false, not, ◌&&◌, ◌||◌, Option, none, some, List, [], ◌∷◌, ◌++◌, map, append-nil,
  append_assoc, arith, ltb, leb, ◌==◌, if◌then◌else◌, Bool-cases, if_cases, Option-cases, is_ok,
  Result-cases, Text, codes, length, take, drop, length-append, is_empty, All, All-append, In,
  In-append_left, In-append_right, In-append_cases, Result, ok, err,
}
use talos_mcp_server.Net.{
  Ip, v4_in_v6_prefix, is_mapped, to4, cidr_mask, and_bytes, mask_ip, network, or_self, number_mask,
  same_masked, contains, byte_at, is_unspecified, is_loopback, is_link_local_unicast, is_multicast,
  Prefix, IpNet, Net,
}
use talos_mcp_server.Nodes.{with_nodes}
use talos_mcp_server.Tools.Effect.{
  History, M, continue, ◌>>=◌, ◌>>◌, pure, fail, emit, require, lift, plain_answer, logged_answer,
  call, call_logged, unlocking, with_lock, Refusal, finish, with_outcome, log_failed, log_failure,
  dialled, dial_insecure, closed, closing, is_mutation, mutation_of, mutations, default_true, Sent,
  Refused, Permitted, with_nodes_cases, Outcome, RebootMode, ApplyMode, UpgradeRequest,
  ResetRequest, ApplyRequest, Call, Channel, Event, FileError, ToolError, ConfigResource, Env,
  Handlers, outcome_ok, refused_enable, refused_confirm, refused_nodes_exclusive,
  refused_fp_without_insecure, refused_endpoint_empty, refused_endpoint_invalid, refused_allowlist,
  refused_fingerprint, refused_meta_key, dial_error, rpc_error, refused_args, default_mode,
  powercycle, force, auto, reboot_now, no_reboot, staged, try_mode, service_start, service_stop,
  service_restart, reboot, upgrade, rollback, reset, get_machine_config, apply_configuration,
  meta_read, meta_delete, meta_write, node_version, read_boot_id, version, service_list, processes,
  containers, resolve_kind, cosi_list, cosi_get, authenticated, insecure, audit, audit_outcome,
  progress, rpc, log_error, log_warn, lock, unlock, dial, close, invalidate_version_cache,
  not_absolute, not_clean, lstat_failed, not_regular, open_failed, read_failed, too_large,
  confirm_required, nodes_required, service_name_required, image_required, unknown_action,
  unknown_mode, unknown_reboot_mode, node_refused, path_refused, one_node_only, patch_blocked,
  blocklist_active, config_file_refused, patch_unreadable, patch_failed, rpc_failed, dial_failed,
  fingerprint_without_insecure, insecure_disabled, nodes_exclusive, endpoint_missing,
  endpoint_invalid, endpoint_not_allowed, fingerprint_invalid, meta_key_invalid, marshal_failed,
  meta_key_not_privileged,
}
use talos_mcp_server.Tools.Config.{canonicalize_and_check_insecure, refuse}

pub record VersionArgs : Type 0 where
  pub nodes : List Text
  pub insecure_flag : Bool
  pub endpoint : Text
  pub cert_fingerprint : Text

pub record ContainersArgs : Type 0 where
  pub namespace : Text
  pub nodes : List Text

pub record GetResourceArgs : Type 0 where
  pub resource_type : Text
  pub resource_id : Text
  pub namespace : Text
  pub nodes : List Text
  pub insecure_flag : Bool
  pub endpoint : Text
  pub cert_fingerprint : Text

abbrev pub default_container_namespace : Text
default_container_namespace = codes "k8s.io"

-- What the answers of the COSI state hold: the namespace and the type that a kind resolves to, and the
-- resources of a list; the kind of resource definitions, and marshal.ResourceDefinition.
pub record Cosi : Type 0 where
  pub definition_kind : Text × Text
  pub summary : Text → Text
  pub resolved : Text → Text × Text
  pub items : Text → List Text

module _ (net : Net) (cosi : Cosi) (env : Env) (h : Handlers) where
  -- The maintenance-mode path of both gated tools: the gate, the connection, and a body on it.
  pub over_insecure : {A : Type 0} → Text → Text → List Text → (Channel → M Refusal A) → M Refusal A
  over_insecure endpoint fingerprint nodes body = do
    gate ← canonicalize_and_check_insecure net h endpoint fingerprint (not (is_empty nodes))
    dial_insecure env gate.0 gate.1
    closing (body (insecure gate.0 gate.1))

  pub over_mtls : {A : Type 0} → List Text → (Channel → M Refusal A) → M Refusal A
  over_mtls nodes body = do
    targets ← lift (refuse refused_allowlist node_refused) (with_nodes net [] h.allowed_nodes nodes)
    body (authenticated targets)

  pub ask_version : Channel → M Refusal Text
  ask_version channel = call env (refuse rpc_error rpc_failed) channel version

  pub checked_version : VersionArgs → M Refusal Text
  unfolding over_insecure over_mtls ask_version
  checked_version args = do
    require (is_empty args.cert_fingerprint || args.insecure_flag)
        (refused_fp_without_insecure, fingerprint_without_insecure)
    if args.insecure_flag
        then over_insecure args.endpoint args.cert_fingerprint args.nodes ask_version
        else over_mtls args.nodes ask_version

  pub handle_version : VersionArgs → M ToolError Text
  handle_version args = do
    emit (audit (codes "talos_version"))
    with_outcome (codes "talos_version") (checked_version args)

  pub marshal_all : List Text → M Refusal (List Text)
  marshal_all [] = pure []
  marshal_all (r ∷ rs) = do
    d ← lift (refuse rpc_error marshal_failed) (env.marshal_resource r)
    ds ← marshal_all rs
    pure (d ∷ ds)

  pub get_one : Channel → Text → Text → Text → M Refusal (List Text)
  get_one channel ns type id = do
    r ← call env (refuse rpc_error rpc_failed) channel (cosi_get ns type id)
    d ← lift (refuse rpc_error marshal_failed) (env.marshal_resource r)
    pure (d ∷ [])

  pub get_list : Channel → Text → Text → M Refusal (List Text)
  unfolding marshal_all
  get_list channel ns type = do
    rs ← call env (refuse rpc_error rpc_failed) channel (cosi_list ns type)
    marshal_all (cosi.items rs)

  pub get_resource_from_cosi : GetResourceArgs → Channel → M Refusal (List Text)
  unfolding get_one get_list
  get_resource_from_cosi args channel = do
    kind ←
        call env (refuse rpc_error rpc_failed) channel
          (resolve_kind args.namespace args.resource_type)
    let (ns, type) = cosi.resolved kind
    if is_empty args.resource_id
        then get_list channel ns type
        else get_one channel ns type args.resource_id

  pub checked_get_resource : GetResourceArgs → M Refusal (List Text)
  unfolding over_insecure over_mtls
  checked_get_resource args = do
    require (is_empty args.cert_fingerprint || args.insecure_flag)
        (refused_fp_without_insecure, fingerprint_without_insecure)
    if args.insecure_flag
        then over_insecure args.endpoint args.cert_fingerprint args.nodes
            (get_resource_from_cosi args)
        else over_mtls args.nodes (get_resource_from_cosi args)

  pub handle_get_resource : GetResourceArgs → M ToolError (List Text)
  handle_get_resource args = do
    emit (audit (codes "talos_get"))
    with_outcome (codes "talos_get") (checked_get_resource args)

  pub handle_services : List Text → M ToolError Text
  handle_services nodes = do
    targets ← lift node_refused (with_nodes net [] h.allowed_nodes nodes)
    call env rpc_failed (authenticated targets) service_list

  pub handle_containers : ContainersArgs → M ToolError Text
  handle_containers args = do
    targets ← lift node_refused (with_nodes net [] h.allowed_nodes args.nodes)
    call env rpc_failed (authenticated targets) (
        containers
          (if is_empty args.namespace then default_container_namespace else args.namespace))

  pub handle_processes : List Text → M ToolError Text
  handle_processes nodes = do
    targets ← lift node_refused (with_nodes net [] h.allowed_nodes nodes)
    call env rpc_failed (authenticated targets) processes

  -- Over the context of the server, which targets no node.
  pub handle_resource_definitions : M ToolError (List Text)
  handle_resource_definitions = do
    rds ←
        call env rpc_failed (authenticated [])
          (cosi_list cosi.definition_kind.0 cosi.definition_kind.1)
    pure (map cosi.summary (cosi.items rds))
