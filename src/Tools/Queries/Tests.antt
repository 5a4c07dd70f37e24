-- ===== src/Tools/Queries/Tests.antt =====
-- Reading a resource, over mTLS and in maintenance mode.
use talos_mcp_server.Common.{◌≡◌, refl, true, false, List, [], ◌∷◌, Text, codes, Result, ok}
use talos_mcp_server.Net.Sample.{sample_net, write}
use talos_mcp_server.Tools.Effect.{History, ToolError, resolve_kind, cosi_list, authenticated}
use talos_mcp_server.Tools.Effect.Reads.{calls}
use talos_mcp_server.Tools.Samples.{sample_env, sample_handlers}
use talos_mcp_server.Tools.Config.Audit.{Audited}
use talos_mcp_server.Nodes.{with_nodes}
use talos_mcp_server.Tools.Queries.{
  handle_version, marshal_all, get_list, get_resource_from_cosi, checked_get_resource,
  handle_get_resource, VersionArgs, GetResourceArgs, Cosi,
}
use talos_mcp_server.Tools.Queries.Gated.{Asks, get_resource_gated}

abbrev pub sample_cosi : Cosi
sample_cosi = record {
  definition_kind = (codes "meta", codes "definitions");
  summary = λ item. item;
  resolved = λ answer. (codes "runtime", answer);
  items = λ answer. answer ∷ answer ∷ [];
}

abbrev get_args : GetResourceArgs
get_args = record {
  resource_type = codes "MachineStatus";
  resource_id = [];
  namespace = [];
  nodes = codes "n1" ∷ [];
  insecure_flag = false;
  endpoint = [];
  cert_fingerprint = [];
}

abbrev get_run : Result ToolError (List Text) × History
get_run = handle_get_resource sample_net sample_cosi sample_env sample_handlers get_args []

listed :
    (get_run.0 ≡ ok (codes "done" ∷ codes "done" ∷ []))
    × (calls get_run.1
        ≡ (authenticated (codes "n1" ∷ []), cosi_list (codes "runtime") (codes "done"))
          ∷ (authenticated (codes "n1" ∷ []), resolve_kind [] (codes "MachineStatus"))
          ∷ [])
unfolding handle_get_resource get_resource_from_cosi get_list marshal_all with_nodes
    checked_get_resource talos_mcp_server.Nodes.check_nodes
listed = (refl, refl)

get_resource_gated_example :
    Asks sample_net sample_cosi sample_env sample_handlers
      (codes "n1" ∷ [])
      false
      []
      []
      get_run.1
      []
    × Audited (codes "talos_get") get_run
get_resource_gated_example =
    get_resource_gated sample_net sample_cosi sample_env sample_handlers get_args []

abbrev version_args : VersionArgs
version_args = record {
  nodes = [];
  insecure_flag = true;
  endpoint = write (10 ∷ 1 ∷ 2 ∷ 3 ∷ []);
  cert_fingerprint = [];
}

abbrev version_run : Result ToolError Text × History
version_run = handle_version sample_net sample_cosi sample_env sample_handlers version_args []
