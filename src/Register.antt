-- ===== src/Register.antt =====
-- internal/tools/register.go: the tools that a server offers, and what a call of a tool by its name does.
-- Descriptions and schemas are left out.
pub mod Calls
use talos_mcp_server.Common.{
  ℕ, zero, suc, ◌+◌, ◌-◌, ◌*◌, ◌/◌, ◌%◌, ◌^◌, ◌≤◌, ◌<◌, ◌≡◌, refl, sym, ap, ◌∙◌, ◌≢◌, ◌↔◌, ◌⊎◌, inl,
  inr, Bool, true, false, not, ◌&&◌, ◌||◌, Option, none, some, List, [], ◌∷◌, ◌++◌, map, append-nil,
  append_assoc, arith, ltb, leb, ◌==◌, if◌then◌else◌, Bool-cases, if_cases, Option-cases, ◌>>=◌,
  is_ok, Result-cases, Text, codes, length, take, drop, length-append, is_empty, All, All-append,
  In, In-append_left, In-append_right, In-append_cases, Result, ok, err,
}
use talos_mcp_server.Text.{
  text_eq, text_eq_iff, text_eq_refl, has_prefix, after_prefix, trim_prefix, has_prefix-append,
  has_prefix_split, contains_byte, Lacks, contains_byte-Lacks, trim_left, trim_right, trim_space,
  to_lower, to_lower_idem,
}

-- The methods of Handlers that serve the tools.
pub data Handler : Type 0 where
  resource_definitions get_resource version services containers processes health logs dmesg :
      Handler
  events etcd etcd_snapshot list_files read_file validate : Handler
  service_action reboot upgrade rollback patch_config reset apply_config meta : Handler

pub record Tool : Type 0 where
  pub name : Text
  pub read_only_hint : Bool
  -- pointers, which may be nil
  pub destructive_hint : Option Bool
  pub open_world_hint : Option Bool
  pub handler : Handler

abbrev pub read_only_tool : Text → Handler → Tool
read_only_tool name handler = record {
  name = name;
  read_only_hint = true;
  destructive_hint = none;
  open_world_hint = some false;
  handler = handler;
}

abbrev pub mutating_tool : Text → Handler → Tool
mutating_tool name handler = record {
  name = name;
  read_only_hint = false;
  destructive_hint = some true;
  open_world_hint = some false;
  handler = handler;
}

abbrev pub read_only_tools : List Tool
read_only_tools =
    read_only_tool (codes "talos_resource_definitions") resource_definitions
    ∷ read_only_tool (codes "talos_get") get_resource
    ∷ read_only_tool (codes "talos_version") version
    ∷ read_only_tool (codes "talos_services") services
    ∷ read_only_tool (codes "talos_containers") containers
    ∷ read_only_tool (codes "talos_processes") processes
    ∷ read_only_tool (codes "talos_health") health
    ∷ read_only_tool (codes "talos_logs") logs
    ∷ read_only_tool (codes "talos_dmesg") dmesg
    ∷ read_only_tool (codes "talos_events") events
    ∷ read_only_tool (codes "talos_etcd") etcd
    ∷ read_only_tool (codes "talos_etcd_snapshot") etcd_snapshot
    ∷ read_only_tool (codes "talos_list_files") list_files
    ∷ read_only_tool (codes "talos_read_file") read_file
    ∷ read_only_tool (codes "talos_validate") validate
    ∷ []

abbrev pub mutating_tools : List Tool
mutating_tools =
    mutating_tool (codes "talos_service_action") service_action
    ∷ mutating_tool (codes "talos_reboot") reboot
    ∷ mutating_tool (codes "talos_upgrade") upgrade
    ∷ mutating_tool (codes "talos_rollback") rollback
    ∷ mutating_tool (codes "talos_patch_config") patch_config
    ∷ mutating_tool (codes "talos_reset") reset
    ∷ mutating_tool (codes "talos_apply_config") apply_config
    ∷ mutating_tool (codes "talos_meta") meta
    ∷ []

-- The tools of a server, in the order in which they are added.
pub register : Bool → List Tool
register read_only = read_only_tools ++ (if not read_only then mutating_tools else [])

-- The MCP server finds a tool by its name.
unfoldable pub find_tool : Text → List Tool → Option Tool
find_tool name [] = none
find_tool name (t ∷ ts) = if text_eq t.name name then some t else find_tool name ts

pub register_read_only : register true ≡ read_only_tools
unfolding register
register_read_only = refl
