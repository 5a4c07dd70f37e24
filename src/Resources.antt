-- ===== src/Resources.antt =====
-- internal/resources/cosi.go and static.go: the handlers of MCP resources. The context of a request
-- targets no node before a handler selects one.
pub mod Capped
pub mod Confined
pub mod Items
mod Tests
pub use talos_mcp_server.Resources.Items.{Payload, max_list_results}
unfoldable pub use talos_mcp_server.Resources.Items.{collect_items}
use talos_mcp_server.Common.{
  ℕ, zero, suc, ◌+◌, ◌-◌, ◌*◌, ◌/◌, ◌%◌, ◌^◌, ◌≤◌, ◌<◌, ◌≡◌, refl, sym, ap, ◌∙◌, ◌≢◌, ◌↔◌, ◌⊎◌, inl,
  inr, Bool, true, false, not, ◌&&◌, ◌||◌, Option, none, some, List, [], ◌∷◌, ◌++◌, map, append-nil,
  append_assoc, arith, ltb, leb, ◌==◌, if◌then◌else◌, Bool-cases, if_cases, Option-cases, is_ok,
  Result-cases, Text, codes, length, take, drop, length-append, is_empty, All, All-append, In,
  In-append_left, In-append_right, In-append_cases, Result, ok, err,
}
use talos_mcp_server.Net.{
  Ip, v4_in_v6_prefix, is_mapped, to4, cidr_mask, and_bytes, mask_ip, network, or_self, number_mask,
  same_masked, contains, byte_at, is_unspecified, is_loopback, is_link_local_unicast, is_multicast,
  Prefix, IpNet, Net,
}
use talos_mcp_server.Nodes.{NodeAllowlist, NodeError, with_nodes}
use talos_mcp_server.CosiUri.{Urls, UriError, CosiUri, parse_cosi_uri}
use talos_mcp_server.Tools.Effect.{
  History, M, continue, ◌>>=◌, ◌>>◌, pure, fail, emit, require, lift, plain_answer, logged_answer,
  call, call_logged, unlocking, with_lock, Refusal, finish, with_outcome, log_failed, log_failure,
  dialled, dial_insecure, closed, closing, is_mutation, mutation_of, mutations, default_true, Sent,
  Refused, Permitted, with_nodes_cases, Outcome, RebootMode, ApplyMode, UpgradeRequest,
  ResetRequest, ApplyRequest, Call, Channel, Event, FileError, ToolError, ConfigResource, Env,
  Handlers, outcome_ok, refused_enable, refused_confirm, refused_nodes_exclusive,
  refused_fp_without_insecure, refused_endpoint_empty, refused_endpoint_invalid, refused_allowlist,
  refused_fingerprint, refused_meta_key, dial_error, rpc_error, refused_args, default_mode,
  powercycle, force, auto, reboot_now, no_reboot, staged, try_mode, service_start, service_stop,
  service_restart, reboot, upgrade, rollback, reset, get_machine_config, apply_configuration,
  meta_read, meta_delete, meta_write, node_version, read_boot_id, version, service_list, processes,
  containers, resolve_kind, cosi_list, cosi_get, authenticated, insecure, audit, audit_outcome,
  progress, rpc, log_error, log_warn, lock, unlock, dial, close, invalidate_version_cache,
  not_absolute, not_clean, lstat_failed, not_regular, open_failed, read_failed, too_large,
  confirm_required, nodes_required, service_name_required, image_required, unknown_action,
  unknown_mode, unknown_reboot_mode, node_refused, path_refused, one_node_only, patch_blocked,
  blocklist_active, config_file_refused, patch_unreadable, patch_failed, rpc_failed, dial_failed,
  fingerprint_without_insecure, insecure_disabled, nodes_exclusive, endpoint_missing,
  endpoint_invalid, endpoint_not_allowed, fingerprint_invalid, meta_key_invalid, marshal_failed,
  meta_key_not_privileged,
}
use talos_mcp_server.Tools.Queries.{
  default_container_namespace, over_insecure, over_mtls, ask_version, checked_version,
  handle_version, marshal_all, get_one, get_list, get_resource_from_cosi, checked_get_resource,
  handle_get_resource, handle_services, handle_containers, handle_processes,
  handle_resource_definitions, VersionArgs, ContainersArgs, GetResourceArgs, Cosi,
}

pub data ReadError : Type 0 where
  uri_refused : UriError → ReadError
  node_not_allowed : NodeError → ReadError
  resource_not_found : ReadError
  resource_unmarshalled list_failed version_failed definitions_failed json_failed : Text → ReadError

-- json.Marshal of what the handlers print.
pub record Json : Type 0 where
  pub payload : Payload → Result Text Text
  pub version_response : Text → Result Text Text
  pub definitions : List Text → Result Text Text

abbrev pub not_found : Text → ReadError
not_found e = resource_not_found

module _ (net : Net) (urls : Urls) (cosi : Cosi) (json : Json) (env : Env)
    (allowed_nodes : Option NodeAllowlist) where
  unfoldable pub get_item : Channel → Text → Text → Text → M ReadError Payload
  get_item channel ns type id = do
    r ← call env not_found channel (cosi_get ns type id)
    d ← lift resource_unmarshalled (env.marshal_resource r)
    pure (record { results = d ∷ []; truncated = false })

  unfoldable pub list_items : Channel → Text → Text → M ReadError Payload
  list_items channel ns type = do
    rs ← call env list_failed channel (cosi_list ns type)
    lift resource_unmarshalled (collect_items env.marshal_resource [] (cosi.items rs))

  unfoldable pub read_resource : CosiUri → Channel → M ReadError Text
  unfolding get_item list_items
  read_resource c channel = do
    kind ← call env not_found channel (resolve_kind c.namespace c.resource_type)
    let (ns, type) = cosi.resolved kind
    payload ←
        if is_empty c.resource_id
        then list_items channel ns type
        else get_item channel ns type c.resource_id
    lift json_failed (json.payload payload)

  unfoldable pub handle_cosi_resource : Text → M ReadError Text
  unfolding read_resource
  handle_cosi_resource uri = do
    c ← lift uri_refused (parse_cosi_uri urls uri)
    targets ← lift node_not_allowed (with_nodes net [] allowed_nodes (c.node ∷ []))
    read_resource c (authenticated targets)

  -- The static resources ask the default node.
  unfoldable pub read_version : M ReadError Text
  read_version = do
    r ← call env version_failed (authenticated []) version
    lift json_failed (json.version_response r)

  unfoldable pub read_definitions : M ReadError Text
  read_definitions = do
    rds ←
        call env definitions_failed (authenticated [])
          (cosi_list cosi.definition_kind.0 cosi.definition_kind.1)
    lift json_failed (json.definitions (map cosi.summary (cosi.items rds)))
