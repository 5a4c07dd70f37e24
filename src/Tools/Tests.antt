-- ===== src/Tools/Tests.antt =====
-- The handlers on concrete arguments.
use talos_mcp_server.Tools.Config.{node_id}
use talos_mcp_server.Tools.Config.Serial.{held, calls_locked, patch_config_serial}
use talos_mcp_server.Tools.Meta.{MetaArgs, MetaAction, meta_action, change, handle_meta}
use talos_mcp_server.Tools.Meta.Guarded.{Reaches, meta_guarded}
use talos_mcp_server.MetaKey.{parse_meta_key, has_number}
use talos_mcp_server.Common.{
  ℕ, ◌≤◌, ◌≡◌, refl, ◌≢◌, ◌⊎◌, true, false, ◌||◌, Option, none, some, List, [], ◌∷◌, ◌++◌, arith,
  Text, codes, length, Result, ok, err,
}
use talos_mcp_server.Version.RoundTrip.{extract_from_image-string}
use talos_mcp_server.Version.{
  TalosVersion, string, less, equal, cross_major, extract_from_image, validate_upgrade_path,
}
use talos_mcp_server.Net.Sample.{sample_net, write}
use talos_mcp_server.Tools.Effect.{
  History, mutations, Sent, Refused, Permitted, RebootMode, ApplyMode, Call, Channel, ToolError,
  upgrade, reset, apply_configuration, authenticated, insecure,
}
use talos_mcp_server.Tools.Samples.{sample_env, sample_handlers, sample_disk, sample_patch_decoder}
use talos_mcp_server.Tools.ConfigFile.{read_config_file}
use talos_mcp_server.Tools.Lifecycle.{
  ServiceActionArgs, UpgradeArgs, RollbackArgs, ResetArgs, upgrade_reboot_mode,
  handle_service_action, handle_upgrade, handle_rollback, handle_reset,
}
use talos_mcp_server.Tools.Lifecycle.Guarded.{reset_guarded, upgrade_guarded, upgrade_path_enforced}
use talos_mcp_server.Tools.Config.{
  PatchConfigArgs, ApplyConfigArgs, resolve_dry_run, parse_apply_config_mode, handle_patch_config,
  handle_apply_config,
}
use talos_mcp_server.Blocklist.{check_blocked_paths}
use talos_mcp_server.Tools.Config.Guarded.{
  MergedFrom, Replaceable, patch_config_guarded, apply_config_guarded,
}
use talos_mcp_server.Tools.Config.Insecurely.{Gated, apply_config_insecure_guarded}
use talos_mcp_server.Tools.Config.Audit.{Audited, apply_config-Audited}

abbrev nodes : List Text
nodes = codes "n1" ∷ []

abbrev reset_args : ResetArgs
reset_args = record {
  nodes = nodes;
  confirm = true;
  graceful = none;
  reboot_flag = false;
  system_labels_to_wipe = [];
}

abbrev reset_run : Result ToolError Text × History
reset_run = handle_reset sample_net sample_env sample_handlers reset_args []

reset_guarded_example :
    Refused reset_run []
    ⊎ ((true ≡ true)
        × (nodes ≢ [])
        × Permitted sample_net none nodes
        × Sent reset_run []
            (authenticated nodes)
            (reset (record { graceful = true; reboot_after = false; labels = [] })))
reset_guarded_example = reset_guarded sample_net sample_env sample_handlers reset_args []

abbrev rollback_args : RollbackArgs
rollback_args = record { nodes = nodes; confirm = true }

abbrev rollback_run : Result ToolError (Unit {0}) × History
rollback_run = handle_rollback sample_net sample_env sample_handlers rollback_args []

abbrev service_args : ServiceActionArgs
service_args = record {
  service_name = codes "kubelet";
  action = codes "restart";
  confirm = true;
  nodes = nodes;
}

abbrev service_run : Result ToolError Text × History
service_run = handle_service_action sample_net sample_env sample_handlers service_args []

abbrev v2 : TalosVersion
v2 = record { major = 2; minor = 0; patch = 0 }

abbrev upgrade_args : UpgradeArgs
upgrade_args = record {
  nodes = nodes;
  image = codes "ghcr.io/siderolabs/installer" ++ b':' ∷ string v2;
  confirm = true;
  preserve = none;
  stage = false;
  force_flag = false;
  reboot_mode = [];
}

abbrev upgrade_run : Result ToolError Text × History
upgrade_run = handle_upgrade sample_net sample_env sample_handlers upgrade_args []

-- One that is sent: to the next minor version.
abbrev sent_args : UpgradeArgs
sent_args = record upgrade_args {
  image =
      codes "ghcr.io/siderolabs/installer"
      ++ b':' ∷ string (record { major = 1; minor = 10; patch = 0 });
}

abbrev sent_run : Result ToolError Text × History
sent_run = handle_upgrade sample_net sample_env sample_handlers sent_args []

upgrade_guarded_example :
    Refused sent_run []
    ⊎ ((true ≡ true)
        × (nodes ≢ [])
        × (sent_args.image ≢ [])
        × Permitted sample_net none nodes
        × (mode : RebootMode) × (upgrade_reboot_mode [] ≡ some mode)
        × Sent sent_run [] (authenticated nodes) (
            upgrade (record {
              image = sent_args.image;
              preserve = true;
              stage = false;
              force_upgrade = false;
              reboot_mode = mode;
            })))
upgrade_guarded_example = upgrade_guarded sample_net sample_env sample_handlers sent_args []

target_read : extract_from_image upgrade_args.image ≡ ok v2
target_read =
    extract_from_image-string (codes "ghcr.io/siderolabs/installer") v2
      (omega arith, omega arith, omega arith)

major_refused :
    validate_upgrade_path (record { major = 1; minor = 9; patch = 3 }) v2 ≡ err cross_major
unfolding validate_upgrade_path less equal
major_refused = refl

upgrade_path_enforced_example : Refused upgrade_run []
upgrade_path_enforced_example =
    upgrade_path_enforced sample_net sample_env sample_handlers upgrade_args (codes "n1") []
      (record { major = 1; minor = 9; patch = 3 }) v2 cross_major [] refl refl (λ past. refl)
      target_read major_refused

abbrev patch_args : PatchConfigArgs
patch_args = record {
  patch = codes "{}";
  mode = codes "no_reboot";
  dry_run = some false;
  confirm = true;
  nodes = nodes;
}

abbrev patch_run : Result ToolError Text × History
patch_run =
    handle_patch_config sample_net sample_patch_decoder sample_env sample_handlers patch_args []

patch_config_guarded_example :
    Refused patch_run []
    ⊎ ((resolve_dry_run (some false) || true ≡ true)
        × (length nodes ≤ 1)
        × (check_blocked_paths sample_patch_decoder (codes "{}") [] ≡ ok tt)
        × Permitted sample_net none nodes
        × (mode : ApplyMode) × (parse_apply_config_mode (codes "no_reboot") ≡ some mode)
        × (merged : Text) × MergedFrom sample_env nodes (codes "{}") merged
        × Sent patch_run [] (authenticated nodes) (
            apply_configuration
              (record { config = merged; mode = mode; dry_run = resolve_dry_run (some false) })))
patch_config_guarded_example =
    patch_config_guarded sample_net sample_patch_decoder sample_env sample_handlers patch_args []

abbrev config_path : Text
config_path = codes "/etc/talos/worker.yaml"

abbrev apply_args : ApplyConfigArgs
apply_args = record {
  config_file = config_path;
  mode = [];
  dry_run = some false;
  confirm = true;
  nodes = nodes;
  insecure_flag = false;
  endpoint = [];
  cert_fingerprint = [];
}

abbrev apply_run : ApplyConfigArgs → Result ToolError Text × History
apply_run args = handle_apply_config sample_net sample_disk sample_env sample_handlers args []

apply_config_guarded_example :
    Refused (apply_run apply_args) []
    ⊎ ((content : Text) × (mode : ApplyMode) × Replaceable sample_net sample_disk sample_env
          sample_handlers apply_args content mode
        × Sent (apply_run apply_args) [] (authenticated nodes) (
            apply_configuration
              (record { config = content; mode = mode; dry_run = resolve_dry_run (some false) })))
apply_config_guarded_example =
    apply_config_guarded sample_net sample_disk sample_env sample_handlers apply_args [] refl

abbrev fresh_node : Text
fresh_node = write (10 ∷ 1 ∷ 2 ∷ 3 ∷ [])

abbrev insecure_args : ApplyConfigArgs
insecure_args = record apply_args { nodes = []; insecure_flag = true; endpoint = fresh_node }

apply_config_insecure_guarded_example :
    Refused (apply_run insecure_args) []
    ⊎ ((canon : Text) × (fp : Option (List ℕ)) × (content : Text) × (mode : ApplyMode) × Gated
          sample_net sample_handlers fresh_node [] false canon fp
        × (resolve_dry_run (some false) || true ≡ true)
        × (read_config_file sample_disk config_path ≡ ok content)
        × (parse_apply_config_mode [] ≡ some mode)
        × Sent (apply_run insecure_args) [] (insecure canon fp) (
            apply_configuration
              (record { config = content; mode = mode; dry_run = resolve_dry_run (some false) })))
apply_config_insecure_guarded_example =
    apply_config_insecure_guarded sample_net sample_disk sample_env sample_handlers insecure_args []
      refl

apply_config-Audited_example : Audited (codes "talos_apply_config") (apply_run insecure_args)
apply_config-Audited_example =
    apply_config-Audited sample_net sample_disk sample_env sample_handlers insecure_args []

abbrev meta_args : MetaArgs
meta_args = record {
  action = codes "write";
  key = codes "0x0c";
  value = codes "x";
  confirm = true;
  nodes = nodes;
  insecure_flag = false;
  endpoint = [];
  cert_fingerprint = [];
}

abbrev meta_run : Result ToolError Text × History
meta_run = handle_meta (12 ∷ []) sample_net sample_env sample_handlers meta_args []

meta_guarded_example :
    (mutations meta_run.1 ≡ [])
    ⊎ ((key : ℕ) × (action : MetaAction) × (channel : Channel) × (c : Call) × (parse_meta_key
            (codes "0x0c")
          ≡ ok key)
        × (meta_action (codes "write") ≡ ok action)
        × (change action key (codes "x") ≡ some c)
        × (true ≡ true)
        × (has_number key (12 ∷ []) || has_number key [] ≡ true)
        × Reaches (12 ∷ []) sample_net sample_env sample_handlers meta_args channel
        × (mutations meta_run.1 ≡ (channel, c) ∷ []))
meta_guarded_example = meta_guarded (12 ∷ []) sample_net sample_env sample_handlers meta_args []

lock_free : held (node_id nodes) [] ≡ false
unfolding held
lock_free = refl

no_calls : calls_locked (node_id nodes) [] ≡ true
unfolding calls_locked
no_calls = refl

patch_config_serial_example :
    (held (node_id nodes) patch_run.1 ≡ false) × (calls_locked (node_id nodes) patch_run.1 ≡ true)
patch_config_serial_example =
    patch_config_serial sample_net sample_patch_decoder sample_env sample_handlers patch_args []
      lock_free no_calls
