-- ===== src/Tools/Meta.antt =====
-- internal/tools/meta.go: the handler that reads, writes and deletes keys of the META partition.
pub mod Guarded
use talos_mcp_server.Common.{
  ℕ, zero, suc, ◌+◌, ◌-◌, ◌*◌, ◌/◌, ◌%◌, ◌^◌, ◌≤◌, ◌<◌, ◌≡◌, refl, sym, ap, ◌∙◌, ◌≢◌, ◌↔◌, ◌⊎◌, inl,
  inr, Bool, true, false, not, ◌&&◌, ◌||◌, Option, none, some, List, [], ◌∷◌, ◌++◌, map, append-nil,
  append_assoc, arith, ltb, leb, ◌==◌, if◌then◌else◌, Bool-cases, Option-cases, is_ok, Result-cases,
  Text, codes, length, take, drop, length-append, is_empty, All, All-append, In, In-append_left,
  In-append_right, In-append_cases, Result, ok, err,
}
use talos_mcp_server.Text.{
  text_eq, text_eq_iff, text_eq_refl, has_prefix, after_prefix, trim_prefix, has_prefix-append,
  has_prefix_split, contains_byte, Lacks, contains_byte-Lacks, trim_left, trim_right, trim_space,
  to_lower, to_lower_idem,
}
use talos_mcp_server.Net.{
  Ip, v4_in_v6_prefix, is_mapped, to4, cidr_mask, and_bytes, mask_ip, network, or_self, number_mask,
  same_masked, contains, byte_at, is_unspecified, is_loopback, is_link_local_unicast, is_multicast,
  Prefix, IpNet, Net,
}
use talos_mcp_server.Nodes.{with_nodes}
use talos_mcp_server.MetaKey.{KeyError, parse_meta_key, has_number}
use talos_mcp_server.Tools.Config.{canonicalize_and_check_insecure}
use talos_mcp_server.Tools.Effect.{
  History, M, continue, ◌>>=◌, ◌>>◌, pure, fail, emit, require, lift, plain_answer, logged_answer,
  call, call_logged, unlocking, with_lock, Refusal, finish, with_outcome, log_failed, log_failure,
  dialled, dial_insecure, closed, closing, is_mutation, mutation_of, mutations, default_true, Sent,
  Refused, Permitted, with_nodes_cases, Outcome, RebootMode, ApplyMode, UpgradeRequest,
  ResetRequest, ApplyRequest, Call, Channel, Event, FileError, ToolError, ConfigResource, Env,
  Handlers, outcome_ok, refused_enable, refused_confirm, refused_nodes_exclusive,
  refused_fp_without_insecure, refused_endpoint_empty, refused_endpoint_invalid, refused_allowlist,
  refused_fingerprint, refused_meta_key, dial_error, rpc_error, refused_args, default_mode,
  powercycle, force, auto, reboot_now, no_reboot, staged, try_mode, service_start, service_stop,
  service_restart, reboot, upgrade, rollback, reset, get_machine_config, apply_configuration,
  meta_read, meta_delete, meta_write, node_version, read_boot_id, authenticated, insecure, audit,
  audit_outcome, progress, rpc, log_error, log_warn, lock, unlock, dial, close,
  invalidate_version_cache, not_absolute, not_clean, lstat_failed, not_regular, open_failed,
  read_failed, too_large, confirm_required, nodes_required, service_name_required, image_required,
  unknown_action, unknown_mode, unknown_reboot_mode, node_refused, path_refused, one_node_only,
  patch_blocked, blocklist_active, config_file_refused, patch_unreadable, patch_failed, rpc_failed,
  dial_failed, fingerprint_without_insecure, insecure_disabled, nodes_exclusive, endpoint_missing,
  endpoint_invalid, endpoint_not_allowed, fingerprint_invalid, meta_key_invalid, marshal_failed,
  meta_key_not_privileged,
}

pub record MetaArgs : Type 0 where
  pub action : Text
  pub key : Text
  pub value : Text
  pub confirm : Bool
  pub nodes : List Text
  pub insecure_flag : Bool
  pub endpoint : Text
  pub cert_fingerprint : Text

pub data MetaAction : Type 0 where
  reading writing deleting : MetaAction

abbrev refuse : {E : Type 0} → Outcome → (E → ToolError) → E → Refusal
refuse o f e = (o, f e)

-- The action that the switch selects.
pub meta_action : Text → Result ToolError MetaAction
meta_action action =
    if text_eq action (codes "read")
    then ok reading
    else if text_eq action (codes "write")
    then ok writing
    else if text_eq action (codes "delete")
    then ok deleting
    else err (unknown_action action)

-- The call that changes the key, if the action is not a read.
pub change : MetaAction → ℕ → Text → Option Call
change reading key value = none
change writing key value = some (meta_write key value)
change deleting key value = some (meta_delete key)

abbrev as_is : ToolError → ToolError
as_is e = e

-- The reserved keys are constants of the Talos machinery.
module _ (reserved : List ℕ) (net : Net) (env : Env) (h : Handlers) where
  -- What a write or a delete needs before anything is dialled.
  pub check_privilege : MetaAction → ℕ → Bool → M Refusal (Unit {0})
  check_privilege reading key confirm = pure tt
  check_privilege action key confirm = do
    require confirm (refused_confirm, confirm_required)
    require (has_number key reserved || has_number key h.meta_privileged_keys)
        (refused_meta_key, meta_key_not_privileged key)

  read_meta_from_cosi : Channel → ℕ → M Refusal Text
  read_meta_from_cosi channel key = do
    r ← call env (refuse rpc_error rpc_failed) channel (meta_read key)
    lift (refuse rpc_error marshal_failed) (env.marshal_resource r)

  -- The dispatch on the action, over either connection.
  pub act : Channel → MetaAction → ℕ → Text → M Refusal Text
  unfolding read_meta_from_cosi
  act channel reading key value = read_meta_from_cosi channel key
  act channel writing key value =
      call env (refuse rpc_error rpc_failed) channel (meta_write key value)
  act channel deleting key value = call env (refuse rpc_error rpc_failed) channel (meta_delete key)

  pub meta_insecure : MetaArgs → MetaAction → ℕ → M Refusal Text
  meta_insecure args action key = do
    gate ←
        canonicalize_and_check_insecure net h args.endpoint args.cert_fingerprint
          (not (is_empty args.nodes))
    dial_insecure env gate.0 gate.1
    closing (act (insecure gate.0 gate.1) action key args.value)

  pub meta_authenticated : MetaArgs → MetaAction → ℕ → M Refusal Text
  meta_authenticated args action key = do
    targets ←
        lift (refuse refused_allowlist node_refused) (with_nodes net [] h.allowed_nodes args.nodes)
    act (authenticated targets) action key args.value

  -- The body behind the deferred audit outcome.
  pub checked_meta : MetaArgs → M Refusal Text
  unfolding check_privilege meta_insecure meta_authenticated
  checked_meta args = do
    require (is_empty args.cert_fingerprint || args.insecure_flag)
        (refused_fp_without_insecure, fingerprint_without_insecure)
    key ← lift (refuse refused_args meta_key_invalid) (parse_meta_key args.key)
    action ← lift (refuse refused_args as_is) (meta_action args.action)
    check_privilege action key args.confirm
    if args.insecure_flag then meta_insecure args action key else meta_authenticated args action key

  pub handle_meta : MetaArgs → M ToolError Text
  handle_meta args = do
    emit (audit (codes "talos_meta"))
    with_outcome (codes "talos_meta") (checked_meta args)
