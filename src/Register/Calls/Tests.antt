-- ===== src/Register/Calls/Tests.antt =====
-- A server that is started read-only, and a call of talos_reset on it.
use talos_mcp_server.Common.{◌≡◌, refl, true, false, none, some, [], ◌∷◌, codes, ok}
use talos_mcp_server.Text.{text_eq}
use talos_mcp_server.Net.Sample.{sample_net}
use talos_mcp_server.Tools.Effect.{mutations}
use talos_mcp_server.Tools.Queries.Tests.{sample_cosi}
use talos_mcp_server.Tools.Samples.{sample_env, sample_disk, sample_patch_decoder}
use talos_mcp_server.Register.{register}
use talos_mcp_server.Register.Calls.{call_tool, World, Arguments, reset_args}
use talos_mcp_server.Startup.Sample.{environ, duration, server, starts}
use talos_mcp_server.Register.Calls.ReadOnly.{read_only_inert}

reads_only : environ (codes "TALOS_MCP_READ_ONLY") ≡ some (codes "true")
unfolding text_eq
reads_only = refl

abbrev world : World
world = record {
  net = sample_net;
  decoder = sample_patch_decoder;
  disk = sample_disk;
  env = sample_env;
  cosi = sample_cosi;
  clock = record {
    parse_duration = duration;
    ctx_done = λ past timeout slept. false;
    elapsed = λ past. [];
  };
  reserved_keys = [];
  arrival = λ os. os;
}

abbrev arguments : Arguments
arguments = reset_args (record {
  nodes = codes "n1" ∷ [];
  confirm = true;
  graceful = none;
  reboot_flag = false;
  system_labels_to_wipe = [];
})

read_only_inert_example :
    mutations (call_tool world server.handlers (register true) (codes "talos_reset") arguments []).1
    ≡ []
read_only_inert_example =
    read_only_inert world duration (ok tt) environ server (codes "talos_reset") arguments [] starts
      reads_only
