-- ===== src/Completions/Tests.antt =====
-- A client that completes the node of a prompt.
use talos_mcp_server.Common.{◌≡◌, refl, inl, inr, true, some, [], ◌∷◌, Text, codes, ok}
use talos_mcp_server.Text.{
  text_eq, text_eq_iff, text_eq_refl, has_prefix, after_prefix, trim_prefix, has_prefix-append,
  has_prefix_split, contains_byte, Lacks, contains_byte-Lacks, trim_left, trim_right, trim_space,
  to_lower, to_lower_idem,
}
use talos_mcp_server.Text.Parts.{split}
use talos_mcp_server.Text.Sorting.{sort_strings}
use talos_mcp_server.Net.Sample.{sample_net, read, read_lower}
use talos_mcp_server.Nodes.{
  NodeAllowlist, parse_node_allowlist, check_node, add_entry, insert_key, has_key, entry_key,
}
use talos_mcp_server.Nodes.Exact.{exact_entries}
use talos_mcp_server.Completions.{CompleteRequest, for_prompt, keep_prefix, candidates, complete}
use talos_mcp_server.Completions.Sound.{is_node_argument, complete-Permitted}

abbrev csv : Text
csv = codes "worker,Node2, node1"

abbrev allowed : NodeAllowlist
allowed = record { cidrs = []; exact = codes "worker" ∷ codes "node2" ∷ codes "node1" ∷ [] }

allowed_read : parse_node_allowlist sample_net csv ≡ ok (some allowed)
unfolding parse_node_allowlist trim_space split add_entry contains_byte read insert_key text_eq
    has_key entry_key to_lower
allowed_read = refl

abbrev request : CompleteRequest
request = record {
  reference =
      some (record { reference_type = codes "ref/prompt"; name = codes "apply-config"; uri = [] });
  argument_name = codes "node";
  argument_value = codes "NO";
}

names_a_node : is_node_argument request.argument_name ≡ true
unfolding is_node_argument text_eq
names_a_node = refl

suggested : complete (some allowed) request ≡ codes "node1" ∷ codes "node2" ∷ []
unfolding complete candidates for_prompt exact_entries sort_strings keep_prefix text_eq has_prefix
    to_lower talos_mcp_server.Text.Sorting.text_leb
suggested = refl

complete-Permitted_example :
    (check_node sample_net (some allowed) (codes "node2") ≡ ok tt)
    × (has_prefix (to_lower (codes "node2")) (to_lower (codes "NO")) ≡ true)
complete-Permitted_example =
    complete-Permitted sample_net read_lower csv allowed request (codes "node2") allowed_read
      names_a_node (rw suggested (inr (inl refl)))
