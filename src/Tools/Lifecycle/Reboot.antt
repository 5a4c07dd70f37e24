-- ===== src/Tools/Lifecycle/Reboot.antt =====
-- `HandleReboot` of internal/tools/lifecycle.go and its wait: the reboot call, and for each node the
-- probes until it went down, came back, and reports another boot ID. Durations are in nanoseconds.
pub mod Confirming
pub mod Polling
pub mod Reading
pub mod Waiting
pub mod Liveness
pub mod Guarded
pub mod Results
pub mod Tests
use talos_mcp_server.Common.{
  ℕ, zero, suc, ◌+◌, ◌-◌, ◌*◌, ◌/◌, ◌%◌, ◌^◌, ◌≤◌, ◌<◌, ◌≡◌, refl, sym, ap, ◌∙◌, ◌≢◌, ◌↔◌, ◌⊎◌, inl,
  inr, Bool, true, false, not, ◌&&◌, ◌||◌, Option, none, some, List, [], ◌∷◌, ◌++◌, map, append-nil,
  append_assoc, arith, ltb, leb, ◌==◌, if◌then◌else◌, Bool-cases, if_cases, Option-cases, is_ok,
  Result-cases, Text, codes, length, take, drop, length-append, is_empty, All, All-append, In,
  In-append_left, In-append_right, In-append_cases, Result, ok, err,
}
use talos_mcp_server.Text.{
  text_eq, text_eq_iff, text_eq_refl, has_prefix, after_prefix, trim_prefix, has_prefix-append,
  has_prefix_split, contains_byte, Lacks, contains_byte-Lacks, trim_left, trim_right, trim_space,
  to_lower, to_lower_idem,
}
use talos_mcp_server.Net.{
  Ip, v4_in_v6_prefix, is_mapped, to4, cidr_mask, and_bytes, mask_ip, network, or_self, number_mask,
  same_masked, contains, byte_at, is_unspecified, is_loopback, is_link_local_unicast, is_multicast,
  Prefix, IpNet, Net,
}
use talos_mcp_server.Nodes.{with_nodes}
use talos_mcp_server.Version.{TalosVersion}
use talos_mcp_server.Tools.Effect.{
  History, M, continue, ◌>>=◌, ◌>>◌, pure, fail, emit, require, lift, plain_answer, logged_answer,
  call, call_logged, unlocking, with_lock, Refusal, finish, with_outcome, log_failed, log_failure,
  dialled, dial_insecure, closed, closing, is_mutation, mutation_of, mutations, default_true, Sent,
  Refused, Permitted, with_nodes_cases, Outcome, RebootMode, ApplyMode, UpgradeRequest,
  ResetRequest, ApplyRequest, Call, Channel, Event, FileError, ToolError, ConfigResource, Env,
  Handlers, outcome_ok, refused_enable, refused_confirm, refused_nodes_exclusive,
  refused_fp_without_insecure, refused_endpoint_empty, refused_endpoint_invalid, refused_allowlist,
  refused_fingerprint, refused_meta_key, dial_error, rpc_error, refused_args, default_mode,
  powercycle, force, auto, reboot_now, no_reboot, staged, try_mode, service_start, service_stop,
  service_restart, reboot, upgrade, rollback, reset, get_machine_config, apply_configuration,
  meta_read, meta_delete, meta_write, node_version, read_boot_id, version, service_list, processes,
  containers, resolve_kind, cosi_list, cosi_get, authenticated, insecure, audit, audit_outcome,
  progress, rpc, log_error, log_warn, lock, unlock, dial, close, invalidate_version_cache,
  not_absolute, not_clean, lstat_failed, not_regular, open_failed, read_failed, too_large,
  confirm_required, nodes_required, service_name_required, image_required, unknown_action,
  unknown_mode, unknown_reboot_mode, node_refused, path_refused, one_node_only, patch_blocked,
  blocklist_active, config_file_refused, patch_unreadable, patch_failed, rpc_failed, dial_failed,
  fingerprint_without_insecure, insecure_disabled, nodes_exclusive, endpoint_missing,
  endpoint_invalid, endpoint_not_allowed, fingerprint_invalid, meta_key_invalid, marshal_failed,
  meta_key_not_privileged,
}
use talos_mcp_server.Tools.Lifecycle.{or_refuse}

pub record RebootArgs : Type 0 where
  pub nodes : List Text
  pub mode : Text
  pub confirm : Bool
  pub wait : Bool
  pub timeout : Text

abbrev pub default_reboot_timeout : ℕ
default_reboot_timeout = 300000000000

abbrev pub reboot_probe_interval : ℕ
reboot_probe_interval = 2000000000

abbrev pub comeback_probe_interval : ℕ
comeback_probe_interval = 3000000000

-- What Go's package time answers. A negative duration, which ends a wait at once, counts as 0.
pub record Clock : Type 0 where
  pub parse_duration : Text → Result Text ℕ
  -- In `select`, whether the context of the wait ends rather than the pause: with all that happened
  -- before, as the probes take time too (5s each at most), the timeout of the wait
  -- and the time that the waiting goroutine has paused so far.
  pub ctx_done : History → ℕ → ℕ → Bool
  -- time.Since(startTime), rounded and printed
  pub elapsed : History → Text

pub data RebootStatus : Type 0 where
  rebooted verification_failed : RebootStatus

pub record RebootResult : Type 0 where
  pub node : Text
  pub old_boot_id : Text
  -- the boot ID, or the error of reading it
  pub new_boot_id : Result Text Text
  pub duration : Text
  pub status : RebootStatus

-- `out_of_rounds` has no counterpart in the code: the fuel of a wait is spent.
pub data WaitError : Type 0 where
  never_down never_back out_of_rounds : WaitError
  boot_id_unchanged : Text → WaitError

pub data RebootError : Type 0 where
  refused : ToolError → RebootError
  invalid_timeout : Text → Text → RebootError
  boot_id_unread : Text → Text → RebootError
  wait_failed : List WaitError → List RebootResult → RebootError

abbrev pub NodeOutcome : Type 0
NodeOutcome = Result WaitError RebootResult

-- `switch args.Mode`
pub reboot_mode_of : Text → Option RebootMode
reboot_mode_of mode =
    if text_eq mode (codes "powercycle")
    then some powercycle
    else if text_eq mode (codes "force")
    then some force
    else if text_eq mode (codes "default") || is_empty mode
    then some default_mode
    else none

-- A loop probes at the start and behind each pause, and pauses at most once more than the timeout
-- has whole pauses.
pub rounds : ℕ → ℕ → ℕ
rounds timeout interval = suc (suc (timeout / interval))

-- `preBootIDs[node]`: the last entry of a node counts.
pub boot_id_of : Text → List (Text × Text) → Text
boot_id_of node [] = []
boot_id_of node ((n, id) ∷ ids) =
    let rest = boot_id_of node ids in if text_eq n node then id else rest

pub wait_errors : List NodeOutcome → List WaitError
wait_errors [] = []
wait_errors (ok r ∷ os) = wait_errors os
wait_errors (err e ∷ os) = e ∷ wait_errors os

pub wait_results : List NodeOutcome → List RebootResult
wait_results [] = []
wait_results (ok r ∷ os) = r ∷ wait_results os
wait_results (err e ∷ os) = wait_results os

-- Whether an answer ends a loop that waits for the node to be up (true) or down (false).
pub reached : Bool → Result Text TalosVersion → Bool
reached up (ok v) = up
reached up (err e) = not up

-- A failure that the caller looks at.
abbrev pub attempt : {E F A : Type 0} → M F A → M E (Result F A)
attempt m hist = (ok (m hist).0, (m hist).1)

abbrev pub same_error : {E : Type 0} → E → E
same_error e = e

module _ (clock : Clock) where
  pub parse_reboot_timeout : Text → Result Text ℕ
  parse_reboot_timeout s = if is_empty s then ok default_reboot_timeout else clock.parse_duration s

module _ (clock : Clock) (env : Env) where
  -- The opening of the file and the reading of its content are one call here.
  pub read_boot : {E : Type 0} → (Text → E) → Text → M E Text
  read_boot wrap node = do
    data_read ← call env wrap (authenticated (node ∷ [])) (read_boot_id node)
    pure (trim_space data_read)

  -- A probing loop: until the node does not answer (false), or until it answers (true). The result is
  -- the time paused so far.
  pub poll : Bool → ℕ → ℕ → WaitError → Text → ℕ → ℕ → M WaitError ℕ
  poll up interval timeout late node zero slept hist = (err out_of_rounds, hist)
  poll up interval timeout late node (suc n) slept hist =
      let after = rpc (authenticated []) (node_version node) ∷ hist in
      let rest = poll up interval timeout late node n (slept + interval) after in
      if reached up (env.version_reply hist [] node)
      then (ok slept, after)
      else if clock.ctx_done after timeout slept
      then (err late, after)
      else rest

  -- Phase 3, on the boot ID read behind the reboot.
  verify : Text → Text → Result Text Text → M WaitError RebootResult
  verify node pre (err e) hist = (
    ok (record {
      node = node;
      old_boot_id = pre;
      new_boot_id = err e;
      duration = clock.elapsed hist;
      status = verification_failed;
    }),
    hist,
  )
  verify node pre (ok id) hist = if text_eq id pre then (err (boot_id_unchanged pre), hist) else (
    ok (record {
      node = node;
      old_boot_id = pre;
      new_boot_id = ok id;
      duration = clock.elapsed hist;
      status = rebooted;
    }),
    hist,
  )

  pub wait_for_node_reboot : ℕ → Text → Text → M WaitError RebootResult
  wait_for_node_reboot timeout node pre = do
    emit (progress (codes "Waiting for reboot to start") 0 0)
    slept ←
        poll false reboot_probe_interval timeout never_down node
          (rounds timeout reboot_probe_interval) 0
    emit (progress (codes "Rebooting, waiting for node to come back") 0 0)
    _ ←
        poll true comeback_probe_interval timeout never_back node
          (rounds timeout comeback_probe_interval) slept
    new ← attempt (read_boot same_error node)
    verify node pre new

  pub read_boot_ids : List Text → List (Text × Text) → M RebootError (List (Text × Text))
  read_boot_ids [] ids = pure ids
  read_boot_ids (node ∷ nodes) ids = do
    id ← read_boot (boot_id_unread node) node
    read_boot_ids nodes ((node, id) ∷ ids)

  -- The goroutines of the nodes, one behind the other: they share nothing but the channel of their
  -- outcomes, and each may get any answers.
  pub wait_all : ℕ → List (Text × Text) → List Text → M RebootError (List NodeOutcome)
  wait_all timeout ids [] = pure []
  wait_all timeout ids (node ∷ nodes) = do
    o ← attempt (wait_for_node_reboot timeout node (boot_id_of node ids))
    os ← wait_all timeout ids nodes
    pure (o ∷ os)

-- What is made of the outcomes, in the order in which they arrive.
pub conclude : List NodeOutcome → M RebootError (List RebootResult)
conclude os =
    if is_empty (wait_errors os)
    then (do
      emit (progress (codes "All node(s) rebooted successfully") 4 4)
      pure (wait_results os))
    else fail (wait_failed (wait_errors os) (wait_results os))

-- `arrival` puts the outcomes in the order in which the goroutines send them.
module _ (arrival : List NodeOutcome → List NodeOutcome) (net : Net) (clock : Clock) (env : Env)
    (h : Handlers) where
  pub reboot_only : RebootMode → List Text → M RebootError (List RebootResult)
  reboot_only mode targets = do
    _ ←
        call_logged env (codes "talos_reboot") (λ e. refused (rpc_failed e)) (authenticated targets)
          (reboot mode)
    emit (progress (codes "Reboot initiated") 1 1)
    pure []

  pub reboot_and_wait : RebootMode → ℕ → List Text → List Text → M RebootError (List RebootResult)
  reboot_and_wait mode timeout nodes targets = do
    emit (progress (codes "Reading pre-reboot boot IDs") 1 4)
    ids ← read_boot_ids clock env nodes []
    emit (progress (codes "Rebooting") 2 4)
    _ ←
        call_logged env (codes "talos_reboot") (λ e. refused (rpc_failed e)) (authenticated targets)
          (reboot mode)
    emit (progress (codes "Waiting for node(s) to complete reboot") 3 4)
    os ← wait_all clock env timeout ids nodes
    conclude (arrival os)

  pub handle_reboot : RebootArgs → M RebootError (List RebootResult)
  handle_reboot args = do
    emit (audit (codes "talos_reboot"))
    require args.confirm (refused confirm_required)
    require (not (is_empty args.nodes)) (refused nodes_required)
    mode ← lift refused (or_refuse (reboot_mode_of args.mode) (unknown_mode args.mode))
    timeout ←
        if args.wait
        then lift (invalid_timeout args.timeout) (parse_reboot_timeout clock args.timeout)
        else pure 0
    targets ← lift (λ e. refused (node_refused e)) (with_nodes net [] h.allowed_nodes args.nodes)
    if args.wait then reboot_and_wait mode timeout args.nodes targets else reboot_only mode targets
