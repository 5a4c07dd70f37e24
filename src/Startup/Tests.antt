-- ===== src/Startup/Tests.antt =====
-- A server in maintenance mode over HTTP.
use talos_mcp_server.Common.{
  ℕ, ◌≡◌, refl, ◌⊎◌, true, false, Option, none, some, List, [], ◌∷◌, if◌then◌else◌, Text, codes,
  Result, ok, err,
}
use talos_mcp_server.Text.{text_eq, contains_byte, trim_space, to_lower}
use talos_mcp_server.Text.Parts.{split}
use talos_mcp_server.Net.Sample.{sample_net, write}
use talos_mcp_server.Nodes.{parse_node_allowlist, len, add_entry, has_key, insert_key, entry_key}
use talos_mcp_server.Insecure.{check_insecure_allowlist}
use talos_mcp_server.MetaKey.{parse_meta_privileged_keys}
use talos_mcp_server.Safety.{Environment, getenv, preset, load_safety_profile}
use talos_mcp_server.Tools.Files.{parse_allowed_paths}
use talos_mcp_server.Startup.{
  Server, StartError, start, insecure_allowlist, validate_http_config, parse_subscription_limits,
  positive_or, split_non_empty,
}
use talos_mcp_server.Tools.Effect.{History, Sent, Refused, Call, ToolError, insecure}
use talos_mcp_server.Tools.Samples.{sample_env, sample_disk}
use talos_mcp_server.Tools.Config.{ApplyConfigArgs, handle_apply_config}
use talos_mcp_server.Startup.Confined.{Confined, maintenance-Confined}

abbrev environ : Environment
environ key =
    if text_eq key (codes "TALOS_MCP_ENABLE_INSECURE")
    then some (codes "true")
    else if text_eq key (codes "TALOS_MCP_INSECURE_ALLOWED_NODES")
    then some (write (10 ∷ 1 ∷ 2 ∷ 3 ∷ []))
    else if text_eq key (codes "TALOS_MCP_HTTP_ADDR")
    then some (codes ":8080")
    else if text_eq key (codes "TALOS_MCP_AUTH_TOKEN")
    then some (codes "t")
    else none

abbrev duration : Text → Result Text ℕ
duration s = err s

abbrev started : Result StartError Server
started = start sample_net duration (ok tt) environ

abbrev server : Server
server = record {
  handlers = record {
    allowed_nodes = none;
    allowed_paths = [];
    skip_version_check = false;
    blocked_config_paths = [];
    enable_insecure = true;
    insecure_allowed_nodes = some (record { exact = write (10 ∷ 1 ∷ 2 ∷ 3 ∷ []) ∷ []; cidrs = [] });
    meta_privileged_keys = [];
  };
  read_only = false;
  http_addr = codes ":8080";
  auth_token = codes "t";
  subscription_rate = 1000000000;
  subscription_burst = 3;
}

starts : started ≡ ok server
unfolding start load_safety_profile preset getenv text_eq to_lower trim_space parse_node_allowlist
    insecure_allowlist check_insecure_allowlist parse_meta_privileged_keys validate_http_config
    parse_subscription_limits positive_or len split write contains_byte
    talos_mcp_server.Net.Sample.read add_entry insert_key has_key entry_key split_non_empty
    parse_allowed_paths
starts = refl

abbrev apply_args : ApplyConfigArgs
apply_args = record {
  config_file = codes "/c";
  mode = [];
  dry_run = some false;
  confirm = true;
  nodes = [];
  insecure_flag = true;
  endpoint = write (10 ∷ 1 ∷ 2 ∷ 3 ∷ []);
  cert_fingerprint = [];
}

abbrev apply_run : Result ToolError Text × History
apply_run = handle_apply_config sample_net sample_disk sample_env server.handlers apply_args []

maintenance-Confined_example :
    Refused apply_run []
    ⊎ ((node : Text) × (fp : Option (List ℕ)) × (c : Call) × Confined sample_net environ node
        × Sent apply_run [] (insecure node fp) c)
maintenance-Confined_example =
    maintenance-Confined sample_net sample_disk sample_env duration (ok tt) environ server
      apply_args [] starts refl
