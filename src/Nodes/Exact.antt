-- ===== src/Nodes/Exact.antt =====
-- NodeAllowlist.Exact of internal/talos/nodes.go, and that the allowlist permits what it lists.
use talos_mcp_server.Common.{
  ◌≡◌, refl, sym, ap, ◌∙◌, inl, inr, true, Option, none, some, List, [], ◌∷◌, ◌++◌, arith,
  Bool-cases, if_cases, Option-cases, Result-cases, Text, All, All-append, In, ok,
}
use talos_mcp_server.Text.{text_eq_iff, contains_byte, trim_space, to_lower, to_lower_idem}
use talos_mcp_server.Text.Parts.{split}
use talos_mcp_server.Text.Sorting.{sort_strings, sort_strings-In}
use talos_mcp_server.Net.{Ip, network, Net}
use talos_mcp_server.Nodes.{
  NodeAllowlist, has_key, insert_key, entry_key, add_cidr, add_entry, add_entries, parse_trimmed,
  parse_node_allowlist, check_node,
}
use talos_mcp_server.Nodes.Matching.{admits_exact}
use talos_mcp_server.Common.Lists.{In-All}
use mathlib.Core.Path.{subst}
use talos_mcp_server.Common.Results.{ok_same}

-- A nil slice is `none`.
unfoldable pub exact_entries : Option NodeAllowlist → Option (List Text)
exact_entries none = none
exact_entries (some a) = some (sort_strings a.exact)

In-has_key : (k : Text) (ks : List Text) → In k ks → has_key k ks ≡ true
unfolding has_key
In-has_key k [] i = absurd i
In-has_key k (j ∷ js) (inl e) = ground (arith, text_eq_iff j k)
In-has_key k (j ∷ js) (inr i) = ground (arith, In-has_key k js i)

module _ (net : Net) where
  -- Stored under the key of some entry.
  abbrev Keyed : Text → Type 0
  Keyed k = (e : Text) × (k ≡ entry_key net e)

  insert_key-Keyed :
      (e : Text) (ks : List Text) → All Keyed ks → All Keyed (insert_key (entry_key net e) ks)
  unfolding insert_key
  insert_key-Keyed e ks a =
      if_cases (All Keyed) (has_key (entry_key net e) ks) ks (ks ++ entry_key net e ∷ []) (λ _. a)
        (λ _. All-append Keyed ks (entry_key net e ∷ []) a ((e, refl), tt))

  add_entry-Keyed :
      (a b : NodeAllowlist) (e : Text)
      → add_entry net a e ≡ ok b
      → All Keyed a.exact
      → All Keyed b.exact
  unfolding add_entry add_cidr
  add_entry-Keyed a b [] h k = subst (λ d. All Keyed d.exact) (ok_same h) k
  add_entry-Keyed a b (c ∷ s) h k = elim (Bool-cases (contains_byte (c ∷ s) b'/')) [
    | inl e ↦ elim (Option-cases (net.parse_prefix (c ∷ s))) [
      | inl n ↦ absurd (ground arith)
      | inr (p, n) ↦
          let same : record a { cidrs = a.cidrs ++ network p ∷ [] } ≡ b = ground arith in
          subst (λ d. All Keyed d.exact) same k
    ]
    | inr e ↦
        let same : record a { exact = insert_key (entry_key net (c ∷ s)) a.exact } ≡ b =
          ground arith in
        subst (λ d. All Keyed d.exact) same (insert_key-Keyed (c ∷ s) a.exact k)
  ]

  add_entries-Keyed :
      (es : List Text) (a b : NodeAllowlist)
      → add_entries net a es ≡ ok b
      → All Keyed a.exact
      → All Keyed b.exact
  unfolding add_entries
  add_entries-Keyed [] a b h k = subst (λ d. All Keyed d.exact) (ok_same h) k
  add_entries-Keyed (e ∷ es) a b h k = elim (Result-cases (add_entry net a (trim_space e))) [
    | inl (c, q) ↦ add_entries-Keyed es c b (rw q at h) (add_entry-Keyed a c (trim_space e) q k)
    | inr (x, q) ↦ absurd (ground arith)
  ]

  parse_trimmed-Keyed :
      (s : Text) (a : NodeAllowlist) → parse_trimmed net s ≡ ok (some a) → All Keyed a.exact
  unfolding parse_trimmed
  parse_trimmed-Keyed [] a h = absurd (ground arith)
  parse_trimmed-Keyed (c ∷ s) a h =
      elim (Result-cases
        (add_entries net (record { cidrs = []; exact = [] }) (split (c ∷ s) b','))) [
          | inl (b, q) ↦
              let same : b ≡ a = ground arith in
              subst (λ d. All Keyed d.exact) same
                (add_entries-Keyed (split (c ∷ s) b',') (record { cidrs = []; exact = [] }) b q tt)
          | inr (x, q) ↦ absurd (ground arith)
        ]

  key_none : (e : Text) → net.parse_ip e ≡ none → entry_key net e ≡ to_lower e
  unfolding entry_key
  key_none e p = rw (p, entry_key) refl

  key_some : (e : Text) (ip : Ip) → net.parse_ip e ≡ some ip → entry_key net e ≡ net.print_ip ip
  unfolding entry_key
  key_some e ip p = rw (p, entry_key) refl

  module _
      (case_blind : (s : Text) → net.parse_ip s ≡ none → net.parse_ip (to_lower s) ≡ none) where
    entry_key_idem : (e : Text) → entry_key net (entry_key net e) ≡ entry_key net e
    entry_key_idem e = elim (Option-cases (net.parse_ip e)) [
      | inl p ↦
          ap (entry_key net) (key_none e p)
          ∙ key_none (to_lower e) (case_blind e p)
          ∙ to_lower_idem e
          ∙ sym (key_none e p)
      | inr (ip, p) ↦
          ap (entry_key net) (key_some e ip p)
          ∙ key_some (net.print_ip ip) ip (net.parse_print ip (net.parse_ip_size e ip p))
          ∙ sym (key_some e ip p)
    ]

    -- An allowlist that was read from text permits each of its exact entries.
    pub exact_entries-permitted :
        (csv : Text) (a : NodeAllowlist) (v : Text)
        → parse_node_allowlist net csv ≡ ok (some a)
        → In v (sort_strings a.exact)
        → check_node net (some a) v ≡ ok tt
    unfolding parse_node_allowlist
    exact_entries-permitted csv a v h i =
        let j = sort_strings-In v a.exact i in
        let (e, q) = In-All Keyed a.exact v (parse_trimmed-Keyed (trim_space csv) a h) j in
        admits_exact net a v (ap (entry_key net) q ∙ entry_key_idem e ∙ sym q)
          (In-has_key v a.exact j)
