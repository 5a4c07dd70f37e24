-- ===== src/Nodes/Tests.antt =====
-- Allowlists on concrete nodes.
use talos_mcp_server.Common.{◌≡◌, refl, some, [], ◌∷◌, ◌++◌, is_ok, Text, codes, ok, err}
use talos_mcp_server.Text.{text_eq, contains_byte, trim_space, to_lower}
use talos_mcp_server.Text.Parts.{split}
use talos_mcp_server.Net.{v4_in_v6_prefix, network, contains}
use talos_mcp_server.Net.Sample.{sample_net, read, write, read_prefix}
use talos_mcp_server.Nodes.{
  NodeAllowlist, not_allowed, has_key, insert_key, in_some_cidr, entry_key, add_entry,
  parse_node_allowlist, check_node, check_nodes, with_nodes,
}
use talos_mcp_server.Nodes.Matching.{matches_some, check_node_exact}

-- 10.0.0.0/8
abbrev ten : Text
ten = b'/' ∷ 288 ∷ 264 ∷ write (v4_in_v6_prefix ++ 10 ∷ 0 ∷ 0 ∷ 0 ∷ [])

abbrev node_a : Text
node_a = write (v4_in_v6_prefix ++ 10 ∷ 1 ∷ 2 ∷ 3 ∷ [])

abbrev node_b : Text
node_b = write (v4_in_v6_prefix ++ 11 ∷ 1 ∷ 2 ∷ 3 ∷ [])

abbrev csv : Text
csv = ten ++ b',' ∷ codes " Node1"

abbrev allowed : NodeAllowlist
allowed = record {
  cidrs = record { ip = 10 ∷ 0 ∷ 0 ∷ 0 ∷ []; mask = 255 ∷ 0 ∷ 0 ∷ 0 ∷ [] } ∷ [];
  exact = codes "node1" ∷ [];
}

allowed_read : parse_node_allowlist sample_net csv ≡ ok (some allowed)
unfolding parse_node_allowlist trim_space write split add_entry contains_byte read_prefix network
    insert_key text_eq has_key entry_key to_lower
allowed_read = refl

outside : check_nodes sample_net (some allowed) (node_a ∷ node_b ∷ []) ≡ err (not_allowed node_b)
unfolding check_nodes read write in_some_cidr contains text_eq has_key to_lower
outside = refl

targeted : with_nodes sample_net [] (some allowed) (node_a ∷ []) ≡ ok (node_a ∷ [])
unfolding with_nodes check_nodes read write in_some_cidr contains text_eq
targeted = refl

check_node_exact_example :
    is_ok (check_node sample_net (some allowed) node_a)
    ≡ matches_some sample_net (split (trim_space csv) b',') node_a
check_node_exact_example = check_node_exact sample_net csv allowed node_a allowed_read
