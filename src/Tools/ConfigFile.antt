-- ===== src/Tools/ConfigFile.antt =====
-- readConfigFile of internal/tools/lifecycle.go.
mod Tests
use talos_mcp_server.Common.{
  ℕ, zero, suc, ◌+◌, ◌-◌, ◌*◌, ◌/◌, ◌%◌, ◌^◌, ◌≤◌, ◌<◌, ◌≡◌, refl, sym, ap, ◌∙◌, ◌≢◌, ◌↔◌, ◌⊎◌, inl,
  inr, Bool, true, false, not, ◌&&◌, ◌||◌, Option, none, some, List, [], ◌∷◌, ◌++◌, map, append-nil,
  append_assoc, arith, ltb, leb, ◌==◌, if◌then◌else◌, Bool-cases, Option-cases, is_ok, Result-cases,
  Text, codes, length, take, drop, length-append, is_empty, All, All-append, In, In-append_left,
  In-append_right, In-append_cases, Result, ok, err,
}
use talos_mcp_server.Text.{
  text_eq, text_eq_iff, text_eq_refl, has_prefix, after_prefix, trim_prefix, has_prefix-append,
  has_prefix_split, contains_byte, Lacks, contains_byte-Lacks, trim_left, trim_right, trim_space,
  to_lower, to_lower_idem,
}
use talos_mcp_server.Text.FilePath.{is_abs, clean}
use talos_mcp_server.Tools.Effect.{
  History, M, continue, ◌>>=◌, ◌>>◌, pure, fail, emit, require, lift, plain_answer, logged_answer,
  call, call_logged, unlocking, with_lock, Refusal, finish, with_outcome, log_failed, log_failure,
  dialled, dial_insecure, closed, closing, is_mutation, mutation_of, mutations, default_true, Sent,
  Refused, Permitted, with_nodes_cases, Outcome, RebootMode, ApplyMode, UpgradeRequest,
  ResetRequest, ApplyRequest, Call, Channel, Event, FileError, ToolError, ConfigResource, Env,
  Handlers, outcome_ok, refused_enable, refused_confirm, refused_nodes_exclusive,
  refused_fp_without_insecure, refused_endpoint_empty, refused_endpoint_invalid, refused_allowlist,
  refused_fingerprint, refused_meta_key, dial_error, rpc_error, refused_args, default_mode,
  powercycle, force, auto, reboot_now, no_reboot, staged, try_mode, service_start, service_stop,
  service_restart, reboot, upgrade, rollback, reset, get_machine_config, apply_configuration,
  meta_read, meta_delete, meta_write, node_version, read_boot_id, authenticated, insecure, audit,
  audit_outcome, progress, rpc, log_error, log_warn, lock, unlock, dial, close,
  invalidate_version_cache, not_absolute, not_clean, lstat_failed, not_regular, open_failed,
  read_failed, too_large, confirm_required, nodes_required, service_name_required, image_required,
  unknown_action, unknown_mode, unknown_reboot_mode, node_refused, path_refused, one_node_only,
  patch_blocked, blocklist_active, config_file_refused, patch_unreadable, patch_failed, rpc_failed,
  dial_failed, fingerprint_without_insecure, insecure_disabled, nodes_exclusive, endpoint_missing,
  endpoint_invalid, endpoint_not_allowed, fingerprint_invalid, meta_key_invalid,
  meta_key_not_privileged,
}

-- The local disk: whether a path names a regular file (os.Lstat), and what opening and reading it gives.
pub record Disk : Type 0 where
  pub lstat : Text → Option Bool
  pub open_file : Text → Option (Option Text)

abbrev pub max_config_file_size : ℕ
max_config_file_size = 2 ^ 20

-- io.ReadAll behind io.LimitReader(f, maxConfigFileSize+1), and the size check.
pub limit_config : Text → Result FileError Text
limit_config content =
    let bytes = take (suc max_config_file_size) content in
    if ltb max_config_file_size (length bytes) then err too_large else ok bytes

read_open : Option (Option Text) → Result FileError Text
unfolding limit_config
read_open none = err open_failed
read_open (some none) = err read_failed
read_open (some (some content)) = limit_config content

pub read_config_file : Disk → Text → Result FileError Text
read_config_file disk path =
    if not (is_abs path)
    then err not_absolute
    else if not (text_eq (clean path) path)
    then err not_clean
    else elim (disk.lstat path) [
      | none ↦ err lstat_failed
      | some false ↦ err not_regular
      | some true ↦ read_open (disk.open_file path)
    ]

length-take-le : (n : ℕ) (s : Text) → length (take n s) < n → take n s ≡ s
length-take-le zero s h = absurd (omega arith)
length-take-le (suc n) [] h = refl
length-take-le (suc n) (c ∷ s) h = ap (λ r. c ∷ r) (length-take-le n s (omega arith))

-- With the limit as a variable: no tactic counts up to it.
limit_sound :
    (n : ℕ) (s t : Text) (fits : Bool)
    → ltb n (length (take (suc n) s)) ≡ fits
    → (if fits then err too_large else ok (take (suc n) s)) ≡ ok t
    → (t ≡ s) × (length t ≤ n)
limit_sound n s t true e h = cc
limit_sound n s t false e h =
    let le : length (take (suc n) s) ≤ n = ground arith in
    let same = length-take-le (suc n) s (omega arith) in
    let is_t : t ≡ take (suc n) s = ground arith in (is_t ∙ same, rw is_t le)

limit_config_sound :
    (s t : Text) → limit_config s ≡ ok t → (t ≡ s) × (length t ≤ max_config_file_size)
unfolding limit_config
limit_config_sound s t h =
    limit_sound max_config_file_size s t
      (ltb max_config_file_size (length (take (suc max_config_file_size) s))) refl h

read_open_sound :
    (o : Option (Option Text)) (t : Text)
    → read_open o ≡ ok t
    → (o ≡ some (some t)) × (length t ≤ max_config_file_size)
unfolding read_open
read_open_sound none t h = cc
read_open_sound (some none) t h = cc
read_open_sound (some (some s)) t h =
    let (e, l) = limit_config_sound s t h in (ap (λ c. some (some c)) (sym e), l)

-- A config that is accepted is the whole content of a regular file under an absolute and clean path,
-- and at most 1 MiB long.
read_config_file_sound :
    (disk : Disk) (path config : Text)
    → read_config_file disk path ≡ ok config
    → (is_abs path ≡ true)
      × (clean path ≡ path)
      × (disk.lstat path ≡ some true)
      × (disk.open_file path ≡ some (some config))
      × (length config ≤ max_config_file_size)
unfolding read_config_file
read_config_file_sound disk path config h =
    let opened : read_open (disk.open_file path) ≡ ok config = ground arith in
    let (e, l) = read_open_sound (disk.open_file path) config opened in
    (ground arith, ground (arith, text_eq_iff (clean path) path), ground arith, e, l)
