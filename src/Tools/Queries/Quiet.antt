-- ===== src/Tools/Queries/Quiet.antt =====
-- The queries change no node.
use talos_mcp_server.Common.{◌≡◌, inl, inr, Bool, List, arith, Text}
use talos_mcp_server.Net.{Net}
use talos_mcp_server.Tools.Effect.{History, mutations, with_nodes_cases, Env, Handlers}
use talos_mcp_server.Tools.Effect.Reads.{OnlyReads-mutations, calls-mutations}
use talos_mcp_server.Tools.Queries.{
  handle_services, handle_containers, handle_processes, handle_resource_definitions, ContainersArgs,
  Cosi,
}
use talos_mcp_server.Tools.Queries.Gated.{Asks}

module _ (net : Net) (cosi : Cosi) (env : Env) (h : Handlers) where
  pub Asks-mutations :
      (nodes : List Text) (insecure_flag : Bool) (endpoint fingerprint : Text)
      (after hist : History)
      → Asks net cosi env h nodes insecure_flag endpoint fingerprint after hist
      → mutations after ≡ mutations hist
  Asks-mutations nodes insecure_flag endpoint fingerprint after hist (inl same) =
      calls-mutations after hist same
  Asks-mutations nodes insecure_flag endpoint fingerprint after hist (inr (channel, _, only)) =
      OnlyReads-mutations channel after hist only

  pub services-mutations :
      (nodes : List Text) (hist : History)
      → mutations (handle_services net cosi env h nodes hist).1 ≡ mutations hist
  unfolding handle_services
  services-mutations nodes hist = ground (arith, with_nodes_cases net h.allowed_nodes nodes)

  pub processes-mutations :
      (nodes : List Text) (hist : History)
      → mutations (handle_processes net cosi env h nodes hist).1 ≡ mutations hist
  unfolding handle_processes
  processes-mutations nodes hist = ground (arith, with_nodes_cases net h.allowed_nodes nodes)

  pub containers-mutations :
      (args : ContainersArgs) (hist : History)
      → mutations (handle_containers net cosi env h args hist).1 ≡ mutations hist
  unfolding handle_containers
  containers-mutations args hist = ground (arith, with_nodes_cases net h.allowed_nodes args.nodes)

  pub definitions-mutations :
      (hist : History)
      → mutations (handle_resource_definitions net cosi env h hist).1 ≡ mutations hist
  unfolding handle_resource_definitions
  definitions-mutations hist = ground arith
