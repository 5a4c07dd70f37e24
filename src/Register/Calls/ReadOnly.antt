-- ===== src/Register/Calls/ReadOnly.antt =====
-- A read-only server changes no node.
use talos_mcp_server.Common.{
  ℕ, ◌≡◌, refl, ap, ◌∙◌, inl, inr, Bool, true, some, List, [], ◌∷◌, Bool-cases, Text, codes, All,
  Result, ok, err,
}
use talos_mcp_server.Text.{text_eq}
use talos_mcp_server.Safety.{Environment}
use talos_mcp_server.Safety.Profile.{effective, load_safety_profile-effective}
use talos_mcp_server.Startup.{Server, start}
use talos_mcp_server.Startup.Gates.{start-Steps}
use talos_mcp_server.Tools.Effect.{History, mutations, Handlers}
use talos_mcp_server.Tools.Queries.{
  handle_version, handle_get_resource, handle_services, handle_containers, handle_processes,
  handle_resource_definitions,
}
use talos_mcp_server.Tools.Queries.Gated.{version_gated, get_resource_gated}
use talos_mcp_server.Tools.Queries.Quiet.{
  Asks-mutations, services-mutations, processes-mutations, containers-mutations,
  definitions-mutations,
}
use talos_mcp_server.Register.{
  Handler, Tool, register, register_read_only, find_tool, read_only_tools,
}
use talos_mcp_server.Register.Calls.{
  answered, serve, serve_found, call_tool, World, Arguments, no_args, get_resource_args,
  version_args, nodes_args, containers_args,
}

module _ (w : World) (h : Handlers) where
  abbrev Quiet : Handler → Type 0
  Quiet t =
      (args : Arguments) (hist : History) → mutations (serve w h t args hist).1 ≡ mutations hist

  answered-history : {E A : Type 0} (r : Result E A × History) → (answered r).1 ≡ r.1
  answered-history (ok a, hist) = refl
  answered-history (err e, hist) = refl

  version-Quiet : Quiet Handler.version
  unfolding serve
  version-Quiet (version_args a) hist =
      ap mutations (answered-history (handle_version w.net w.cosi w.env h a hist))
      ∙ Asks-mutations w.net w.cosi w.env h _ _ _ _ (handle_version w.net w.cosi w.env h a hist).1
          hist (version_gated w.net w.cosi w.env h a hist).0
  version-Quiet _ hist = refl

  get_resource-Quiet : Quiet Handler.get_resource
  unfolding serve
  get_resource-Quiet (get_resource_args a) hist =
      ap mutations (answered-history (handle_get_resource w.net w.cosi w.env h a hist))
      ∙ Asks-mutations w.net w.cosi w.env h _ _ _ _
          (handle_get_resource w.net w.cosi w.env h a hist).1 hist
          (get_resource_gated w.net w.cosi w.env h a hist).0
  get_resource-Quiet _ hist = refl

  services-Quiet : Quiet Handler.services
  unfolding serve
  services-Quiet (nodes_args a) hist =
      ap mutations (answered-history (handle_services w.net w.cosi w.env h a hist))
      ∙ services-mutations w.net w.cosi w.env h a hist
  services-Quiet _ hist = refl

  processes-Quiet : Quiet Handler.processes
  unfolding serve
  processes-Quiet (nodes_args a) hist =
      ap mutations (answered-history (handle_processes w.net w.cosi w.env h a hist))
      ∙ processes-mutations w.net w.cosi w.env h a hist
  processes-Quiet _ hist = refl

  containers-Quiet : Quiet Handler.containers
  unfolding serve
  containers-Quiet (containers_args a) hist =
      ap mutations (answered-history (handle_containers w.net w.cosi w.env h a hist))
      ∙ containers-mutations w.net w.cosi w.env h a hist
  containers-Quiet _ hist = refl

  definitions-Quiet : Quiet Handler.resource_definitions
  unfolding serve
  definitions-Quiet no_args hist =
      ap mutations (answered-history (handle_resource_definitions w.net w.cosi w.env h hist))
      ∙ definitions-mutations w.net w.cosi w.env h hist
  definitions-Quiet _ hist = refl

  read_only_tools-Quiet : All (λ t. Quiet t.handler) read_only_tools
  unfolding serve
  read_only_tools-Quiet =
      let other : (a : Arguments) (hist : History) → mutations hist ≡ mutations hist =
        λ a hist. refl in
      (
        definitions-Quiet,
        (
          get_resource-Quiet,
          (
            version-Quiet,
            (
              services-Quiet,
              (
                containers-Quiet,
                (
                  processes-Quiet,
                  (
                    other,
                    (other, (other, (other, (other, (other, (other, (other, (other, tt)))))))),
                  ),
                ),
              ),
            ),
          ),
        ),
      )

  find_tool-Quiet :
      (name : Text) (ts : List Tool) (args : Arguments) (hist : History)
      → All (λ t. Quiet t.handler) ts
      → mutations (serve_found w h (find_tool name ts) args hist).1 ≡ mutations hist
  unfolding serve_found find_tool
  find_tool-Quiet name [] args hist q = refl
  find_tool-Quiet name (t ∷ ts) args hist (q, qs) = elim (Bool-cases (text_eq t.name name)) [
    | inl e ↦ rw e (q args hist)
    | inr e ↦ rw e (find_tool-Quiet name ts args hist qs)
  ]

effective-true :
    (environ : Environment) (default : Bool)
    → environ (codes "TALOS_MCP_READ_ONLY") ≡ some (codes "true")
    → effective environ (codes "TALOS_MCP_READ_ONLY") default ≡ true
unfolding effective text_eq
effective-true environ default on = rw (on, effective) refl

-- A server that is started with TALOS_MCP_READ_ONLY=true changes no node: whatever tool is called by
-- whatever name and with whatever arguments, no call of the API that changes a node is made. (Of the
-- tools, those whose calls stand in the history.)
pub read_only_inert :
    (w : World) (parse_duration : Text → Result Text ℕ) (new_client : Result Text (Unit {0}))
    (environ : Environment) (s : Server) (name : Text) (args : Arguments) (hist : History)
    → start w.net parse_duration new_client environ ≡ ok s
    → environ (codes "TALOS_MCP_READ_ONLY") ≡ some (codes "true")
    → mutations (call_tool w s.handlers (register s.read_only) name args hist).1 ≡ mutations hist
unfolding call_tool
read_only_inert w parse_duration new_client environ s name args hist p on =
    let (_, _, _, safety, loaded, same) = start-Steps w.net parse_duration new_client environ s p in
    let (flag, _, _, _, _) = load_safety_profile-effective environ safety loaded in
    let read_only : s.read_only ≡ true = same ∙ flag ∙ effective-true environ _ on in
    rw (read_only, register_read_only)
      (find_tool-Quiet w s.handlers name read_only_tools args hist
        (read_only_tools-Quiet w s.handlers))
