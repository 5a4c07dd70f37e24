-- ===== src/Startup/Sample.antt =====
-- A server that is started read-only.
use talos_mcp_server.Common.{
  ℕ, ◌≡◌, refl, true, false, none, some, [], if◌then◌else◌, Text, codes, Result, ok, err,
}
use talos_mcp_server.Text.{text_eq, contains_byte, trim_space, to_lower}
use talos_mcp_server.Text.Parts.{split}
use talos_mcp_server.Net.Sample.{sample_net, write}
use talos_mcp_server.Nodes.{parse_node_allowlist, len, add_entry, has_key, insert_key, entry_key}
use talos_mcp_server.Insecure.{check_insecure_allowlist}
use talos_mcp_server.MetaKey.{parse_meta_privileged_keys}
use talos_mcp_server.Safety.{Environment, getenv, preset, load_safety_profile}
use talos_mcp_server.Tools.Files.{parse_allowed_paths}
use talos_mcp_server.Startup.{
  Server, start, insecure_allowlist, validate_http_config, parse_subscription_limits, positive_or,
  split_non_empty,
}
use talos_mcp_server.Tools.Samples.{sample_handlers}

abbrev pub environ : Environment
environ key = if text_eq key (codes "TALOS_MCP_READ_ONLY") then some (codes "true") else none

abbrev pub duration : Text → Result Text ℕ
duration s = err s

abbrev pub server : Server
server = record {
  handlers = record sample_handlers { enable_insecure = false };
  read_only = true;
  http_addr = [];
  auth_token = [];
  subscription_rate = 1000000000;
  subscription_burst = 3;
}

pub starts : start sample_net duration (ok tt) environ ≡ ok server
unfolding start load_safety_profile preset getenv text_eq to_lower trim_space parse_node_allowlist
    insecure_allowlist check_insecure_allowlist parse_meta_privileged_keys validate_http_config
    parse_subscription_limits positive_or len split write contains_byte
    talos_mcp_server.Net.Sample.read add_entry insert_key has_key entry_key split_non_empty
    parse_allowed_paths
starts = refl
