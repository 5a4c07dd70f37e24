-- ===== src/Nodes.antt =====
-- internal/talos/nodes.go and WithNodes of internal/talos/client.go: the allowlist of nodes.
-- A nil *NodeAllowlist is `none`. The set of keys is a list without duplicates.
pub mod Exact
pub mod Matching
pub mod Parsing
mod Tests
use talos_mcp_server.Common.{
  ℕ, zero, suc, ◌+◌, ◌-◌, ◌*◌, ◌/◌, ◌%◌, ◌^◌, ◌≤◌, ◌<◌, ◌≡◌, refl, sym, ap, ◌∙◌, ◌≢◌, ◌↔◌, ◌⊎◌, inl,
  inr, Bool, true, false, not, ◌&&◌, ◌||◌, Option, none, some, List, [], ◌∷◌, ◌++◌, map, append-nil,
  append_assoc, arith, ltb, leb, ◌==◌, if◌then◌else◌, Bool-cases, if_cases, Option-cases, ◌>>=◌,
  is_ok, Result-cases, Text, codes, length, take, drop, length-append, is_empty, All, All-append,
  In, In-append_left, In-append_right, In-append_cases, Result, ok, err,
}
use talos_mcp_server.Text.{
  text_eq, text_eq_iff, text_eq_refl, has_prefix, after_prefix, trim_prefix, has_prefix-append,
  has_prefix_split, contains_byte, Lacks, contains_byte-Lacks, trim_left, trim_right, trim_space,
  to_lower, to_lower_idem,
}
use talos_mcp_server.Text.Parts.{split}
use talos_mcp_server.Net.{
  Ip, v4_in_v6_prefix, is_mapped, to4, cidr_mask, and_bytes, mask_ip, network, or_self, number_mask,
  same_masked, contains, byte_at, is_unspecified, is_loopback, is_link_local_unicast, is_multicast,
  Prefix, IpNet, Net,
}

pub record NodeAllowlist : Type 0 where
  pub cidrs : List IpNet
  pub exact : List Text

pub data NodeError : Type 0 where
  invalid_cidr : Text → NodeError
  not_allowed : Text → NodeError

-- A lookup in the set of exact entries.
unfoldable pub has_key : Text → List Text → Bool
has_key k [] = false
has_key k (j ∷ js) = text_eq j k || has_key k js

unfoldable pub insert_key : Text → List Text → List Text
insert_key k ks = if has_key k ks then ks else ks ++ k ∷ []

pub in_some_cidr : List IpNet → Ip → Bool
in_some_cidr [] ip = false
in_some_cidr (c ∷ cs) ip = contains c ip || in_some_cidr cs ip

module _ (net : Net) where
  -- The key under which an entry without a slash is stored.
  unfoldable pub entry_key : Text → Text
  entry_key entry = elim (net.parse_ip entry) [ some ip ↦ net.print_ip ip | none ↦ to_lower entry ]

  add_cidr : NodeAllowlist → Text → Result NodeError NodeAllowlist
  add_cidr a entry = elim (net.parse_prefix entry) [
    | none ↦ err (invalid_cidr entry)
    | some p ↦ ok (record a { cidrs = a.cidrs ++ network p ∷ [] })
  ]

  -- One round of the loop, for the trimmed entry.
  unfoldable pub add_entry : NodeAllowlist → Text → Result NodeError NodeAllowlist
  unfolding add_cidr
  add_entry a [] = ok a
  add_entry a (c ∷ s) =
      if contains_byte (c ∷ s) b'/'
      then add_cidr a (c ∷ s)
      else ok (record a { exact = insert_key (entry_key (c ∷ s)) a.exact })

  add_entries : NodeAllowlist → List Text → Result NodeError NodeAllowlist
  add_entries a [] = ok a
  add_entries a (e ∷ es) = do a' ← add_entry a (trim_space e); add_entries a' es

  parse_trimmed : Text → Result NodeError (Option NodeAllowlist)
  unfolding add_entries
  parse_trimmed [] = ok none
  parse_trimmed (c ∷ s) = do
    a ← add_entries (record { cidrs = []; exact = [] }) (split (c ∷ s) b',')
    ok (some a)

  unfoldable pub parse_node_allowlist : Text → Result NodeError (Option NodeAllowlist)
  unfolding parse_trimmed
  parse_node_allowlist csv = parse_trimmed (trim_space csv)

  -- The three exits of CheckNode: within a range, an exact match, neither.
  pub admits : NodeAllowlist → Text → Bool
  admits a node = elim (net.parse_ip node) [
    | some ip ↦ in_some_cidr a.cidrs ip || has_key (to_lower (net.print_ip ip)) a.exact
    | none ↦ has_key (to_lower node) a.exact
  ]

  unfoldable pub check_node : Option NodeAllowlist → Text → Result NodeError (Unit {0})
  unfolding admits
  check_node none node = ok tt
  check_node (some a) node = if admits a node then ok tt else err (not_allowed node)

  check_each : NodeAllowlist → List Text → Result NodeError (Unit {0})
  unfolding check_node
  check_each a [] = ok tt
  check_each a (n ∷ ns) = do _ ← check_node (some a) n; check_each a ns

  unfoldable pub check_nodes : Option NodeAllowlist → List Text → Result NodeError (Unit {0})
  unfolding check_each
  check_nodes none nodes = ok tt
  check_nodes (some a) nodes = check_each a nodes

  -- The targets that the context carries afterwards; `[]` stands for the default nodes.
  unfoldable pub with_nodes :
      List Text → Option NodeAllowlist → List Text → Result NodeError (List Text)
  with_nodes ctx allow [] = ok ctx
  with_nodes ctx allow (n ∷ ns) = do _ ← check_nodes allow (n ∷ ns); ok (n ∷ ns)

unfoldable pub len : Option NodeAllowlist → ℕ
len none = 0
len (some a) = length a.exact + length a.cidrs
