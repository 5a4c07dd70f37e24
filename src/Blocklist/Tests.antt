-- ===== src/Blocklist/Tests.antt =====
-- The path guard on concrete patches.
use talos_mcp_server.Common.{
  ◌≡◌, refl, inl, false, Option, none, some, List, [], ◌∷◌, arith, ◌==◌, if◌then◌else◌, is_ok, Text,
  codes, All, ok,
}
use talos_mcp_server.Text.{text_eq, has_prefix, Lacks}
use talos_mcp_server.Text.Parts.{join}
use talos_mcp_server.Blocklist.{
  leaf, object, Fields, end, field, PatchOp, Decoder, path_conflicts, full_path, value_paths,
  collect_paths, check_path, check_paths, yaml_paths, extract_patch_paths, check_blocked_paths,
}
use talos_mcp_server.Blocklist.Guard.{at_leaf, inside, Apart, merge_patch_guarded}

-- `{"machine": {"network": {"hostname": ...}}}`
abbrev host_patch : Fields
host_patch =
    field (codes "machine")
      (object (field (codes "network") (object (field (codes "hostname") leaf end)) end)) end

abbrev move_op : PatchOp
move_op = record { op = codes "move"; path = codes "/machine/network"; from = codes "/machine/env" }

-- A document that starts with a bracket is a list of operations, and any other a map.
abbrev ops_of : Text → Option (List PatchOp)
ops_of [] = none
ops_of (c ∷ s) = if c == b'[' then some (move_op ∷ []) else none

abbrev sample_decoder : Decoder
sample_decoder = record { json_ops = ops_of; yaml_map = λ doc. some host_patch }

abbrev blocked : List Text
blocked = codes "machine.install" ∷ []

refused :
    is_ok (check_blocked_paths sample_decoder (codes "{}") (codes "machine.network" ∷ [])) ≡ false
unfolding check_blocked_paths extract_patch_paths yaml_paths collect_paths value_paths full_path
    check_paths check_path path_conflicts text_eq has_prefix
refused = refl

passes_merge : check_blocked_paths sample_decoder (codes "{}") blocked ≡ ok tt
unfolding check_blocked_paths extract_patch_paths yaml_paths collect_paths value_paths full_path
    check_paths check_path path_conflicts text_eq has_prefix
passes_merge = refl

no_dots : All (Lacks b'.') (codes "machine" ∷ codes "install" ∷ [])
no_dots = ground arith

merge_patch_guarded_example :
    Apart
      (codes "machine" ∷ codes "network" ∷ codes "hostname" ∷ [])
      (codes "machine" ∷ codes "install" ∷ [])
unfolding join
merge_patch_guarded_example =
    merge_patch_guarded sample_decoder (codes "{}") blocked host_patch (codes "machine")
      (codes "network" ∷ codes "hostname" ∷ []) (codes "machine") (codes "install" ∷ [])
      passes_merge refl refl (inside (inside at_leaf)) (λ e. cc) (ground arith) no_dots (inl refl)
