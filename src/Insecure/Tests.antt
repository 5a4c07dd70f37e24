-- ===== src/Insecure/Tests.antt =====
-- The maintenance-mode gates on concrete endpoints, fingerprints and allowlists.
use talos_mcp_server.Common.{
  ℕ, ◌≡◌, refl, true, some, List, [], ◌∷◌, ◌++◌, arith, is_ok, Text, codes, ok,
}
use talos_mcp_server.Text.{text_eq, contains_byte, trim_space}
use talos_mcp_server.Text.Parts.{split}
use talos_mcp_server.Net.{
  v4_in_v6_prefix, is_unspecified, is_loopback, is_link_local_unicast, is_multicast,
}
use talos_mcp_server.Net.Sample.{sample_net, read, write, read_prefix}
use talos_mcp_server.Nodes.{NodeAllowlist, parse_node_allowlist, check_node}
use talos_mcp_server.Insecure.{canonical_ip, strip, parse_fingerprint, check_insecure_allowlist}
use talos_mcp_server.Insecure.Fingerprint.{spell, parse_fingerprint-spell}
use talos_mcp_server.Insecure.Mapped.{ceiling_misses_mapped_range}

abbrev endpoint : Text
endpoint = write (v4_in_v6_prefix ++ 10 ∷ 1 ∷ 2 ∷ 3 ∷ [])

-- 10.0.0.0/20, which is broader than recommended
abbrev range : Text
range = b'/' ∷ 288 ∷ 276 ∷ write (v4_in_v6_prefix ++ 10 ∷ 0 ∷ 0 ∷ 0 ∷ [])

abbrev mapped : Text
mapped = b'/' ∷ 384 ∷ 352 ∷ write (v4_in_v6_prefix ++ 0 ∷ 0 ∷ 0 ∷ 0 ∷ [])

abbrev pinned : List ℕ
pinned =
    1 ∷ 2 ∷ 3 ∷ 4 ∷ 5 ∷ 6 ∷ 7 ∷ 8 ∷ 171 ∷ 10 ∷ 11 ∷ 12 ∷ 13 ∷ 14 ∷ 15 ∷ 16 ∷ 17 ∷ 18 ∷ 19 ∷ 20 ∷ 21
    ∷ 22 ∷ 23 ∷ 24 ∷ 25 ∷ 26 ∷ 27 ∷ 28 ∷ 29 ∷ 30 ∷ 31 ∷ 255 ∷ []

accepted : canonical_ip sample_net endpoint ≡ ok endpoint
unfolding canonical_ip write read is_unspecified text_eq is_loopback is_link_local_unicast
    is_multicast
accepted = refl

within : check_insecure_allowlist sample_net range ≡ ok (range ∷ [])
unfolding check_insecure_allowlist trim_space write split contains_byte read_prefix
within = refl

spelled : parse_fingerprint (spell true (codes ":") pinned) ≡ ok pinned
unfolding strip
spelled = parse_fingerprint-spell true (codes ":") pinned refl refl (ground arith)

ceiling_misses_mapped_range_example :
    (check_insecure_allowlist sample_net mapped ≡ ok [])
    × (allow : NodeAllowlist) × (parse_node_allowlist sample_net mapped ≡ ok (some allow))
    × (is_ok (check_node sample_net (some allow) endpoint) ≡ true)
unfolding trim_space contains_byte write read_prefix
ceiling_misses_mapped_range_example =
    ceiling_misses_mapped_range sample_net mapped 0 0 0 0 endpoint 10 1 2 3 refl (ground arith) refl
      (ground arith) refl refl
