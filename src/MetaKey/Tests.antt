-- ===== src/MetaKey/Tests.antt =====
-- META keys in concrete spellings.
use talos_mcp_server.Common.{◌≡◌, refl, false, [], ◌∷◌, Text, codes, is_empty, ok, err}
use talos_mcp_server.Text.{contains_byte, trim_space}
use talos_mcp_server.Text.Parts.{split}
use talos_mcp_server.Text.Uint.{parse_uint}
use talos_mcp_server.MetaKey.{ambiguous_zero, parse_meta_key, parse_meta_privileged_keys}

six_read : parse_meta_key (codes "0x06") ≡ ok 6
unfolding parse_meta_key parse_uint contains_byte
six_read = refl

octal_refused : parse_meta_key (codes "06") ≡ err ambiguous_zero
unfolding parse_meta_key
octal_refused = refl

abbrev listed : Text
listed = codes " 6, 0x0a,,6"

list_read : parse_meta_privileged_keys listed ≡ ok (10 ∷ 6 ∷ [])
unfolding parse_meta_privileged_keys trim_space split parse_uint contains_byte
list_read = refl

not_blank : is_empty (trim_space listed) ≡ false
unfolding trim_space
not_blank = refl
