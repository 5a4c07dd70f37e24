-- ===== src/MetaKey.antt =====
-- The keys of the META partition: parseMetaKey of internal/tools/meta.go, and
-- ParseMetaPrivilegedKeys of internal/config/insecure.go.
pub mod Parsing
mod Tests
use talos_mcp_server.Common.{
  ℕ, zero, suc, ◌+◌, ◌-◌, ◌*◌, ◌/◌, ◌%◌, ◌^◌, ◌≤◌, ◌<◌, ◌≡◌, refl, sym, ap, ◌∙◌, ◌≢◌, ◌↔◌, ◌⊎◌, inl,
  inr, Bool, true, false, not, ◌&&◌, ◌||◌, Option, none, some, List, [], ◌∷◌, ◌++◌, map, append-nil,
  append_assoc, arith, ltb, leb, ◌==◌, if◌then◌else◌, Bool-cases, Option-cases, ◌>>=◌, is_ok,
  Result-cases, Text, codes, length, take, drop, length-append, is_empty, All, All-append, In,
  In-append_left, In-append_right, In-append_cases, Result, ok, err,
}
use talos_mcp_server.Text.{
  text_eq, text_eq_iff, text_eq_refl, has_prefix, after_prefix, trim_prefix, has_prefix-append,
  has_prefix_split, contains_byte, Lacks, contains_byte-Lacks, trim_left, trim_right, trim_space,
  to_lower, to_lower_idem,
}
use talos_mcp_server.Text.Parts.{split}
use talos_mcp_server.Text.Uint.{parse_uint}

pub data KeyError : Type 0 where
  key_empty ambiguous_zero unreadable_key : KeyError
  above_255 : ℕ → KeyError

-- The second character of an explicit base prefix.
abbrev pub names_base : ℕ → Bool
names_base c = c == b'x' || c == b'X' || c == b'o' || c == b'O' || c == b'b' || c == b'B'

pub ambiguous : Text → Bool
ambiguous (c ∷ d ∷ s) = c == b'0' && not (names_base d)
ambiguous s = false

in_byte : Option ℕ → Result KeyError ℕ
in_byte none = err unreadable_key
in_byte (some v) = if ltb 255 v then err (above_255 v) else ok v

-- A text that is not empty. The number has 9 bits, and then 8.
pub parse_entry : Text → Result KeyError ℕ
unfolding ambiguous in_byte
parse_entry s = if ambiguous s then err ambiguous_zero else in_byte (parse_uint 511 s)

pub parse_meta_key : Text → Result KeyError ℕ
unfolding parse_entry
parse_meta_key s = if is_empty s then err key_empty else parse_entry s

-- The keys of the map, without duplicates.
pub has_number : ℕ → List ℕ → Bool
has_number v [] = false
has_number v (w ∷ ws) = v == w || has_number v ws

abbrev add_number : ℕ → List ℕ → List ℕ
add_number v out = if has_number v out then out else v ∷ out

collect_keys : List Text → List ℕ → Result KeyError (List ℕ)
unfolding has_number parse_entry
collect_keys [] out = ok out
collect_keys (e ∷ es) out =
    if is_empty (trim_space e) then collect_keys es out else elim (parse_entry (trim_space e)) [
      | err x ↦ err x
      | ok v ↦ collect_keys es (add_number v out)
    ]

unfoldable pub parse_meta_privileged_keys : Text → Result KeyError (List ℕ)
unfolding collect_keys
parse_meta_privileged_keys raw =
    if is_empty (trim_space raw) then ok [] else collect_keys (split (trim_space raw) b',') []
