-- ===== src/Nodes/Matching.antt =====
-- What an allowlist admits, in terms of the text that it was read from.
use talos_mcp_server.Common.{
  ◌≡◌, refl, ap, ◌∙◌, ◌⊎◌, inl, inr, Bool, true, false, ◌||◌, Option, none, some, List, [], ◌∷◌,
  ◌++◌, arith, if◌then◌else◌, Bool-cases, Option-cases, is_ok, Result-cases, Text, All, In, ok, err,
}
use talos_mcp_server.Text.{text_eq, text_eq_iff, contains_byte, trim_space, to_lower, to_lower_idem}
use talos_mcp_server.Text.Parts.{split}
use talos_mcp_server.Net.{Ip, network, contains, Prefix, IpNet, Net}
use talos_mcp_server.Nodes.{
  NodeAllowlist, NodeError, not_allowed, has_key, insert_key, in_some_cidr, entry_key, add_entry,
  add_entries, parse_trimmed, parse_node_allowlist, admits, check_node, check_each, check_nodes,
  with_nodes,
}

has_key-append :
    (k : Text) (xs ys : List Text) → has_key k (xs ++ ys) ≡ (has_key k xs || has_key k ys)
unfolding has_key
has_key-append k [] ys = refl
has_key-append k (x ∷ xs) ys = ground (arith, has_key-append k xs ys)

has_key-insert_key :
    (k j : Text) (xs : List Text) → has_key k (insert_key j xs) ≡ (has_key k xs || text_eq j k)
unfolding insert_key has_key
has_key-insert_key k j xs = ground (arith, has_key-append k xs (j ∷ []), text_eq_iff j k)

in_some_cidr-append :
    (xs : List IpNet) (c : IpNet) (ip : Ip)
    → in_some_cidr (xs ++ c ∷ []) ip ≡ (in_some_cidr xs ip || contains c ip)
unfolding in_some_cidr
in_some_cidr-append [] c ip = ground arith
in_some_cidr-append (x ∷ xs) c ip = ground (arith, in_some_cidr-append xs c ip)

module _ (net : Net) where
  in_ranges : List IpNet → Option Ip → Bool
  in_ranges cidrs none = false
  in_ranges cidrs (some ip) = in_some_cidr cidrs ip

  in_ranges-append :
      (cidrs : List IpNet) (c : IpNet) (o : Option Ip)
      → in_ranges (cidrs ++ c ∷ []) o ≡ (in_ranges cidrs o || in_ranges (c ∷ []) o)
  unfolding in_ranges in_some_cidr
  in_ranges-append cidrs c none = refl
  in_ranges-append cidrs c (some ip) = ground (arith, in_some_cidr-append cidrs c ip)

  in_prefix : Text → Text → Bool
  in_prefix entry node = elim (net.parse_prefix entry) [
    | none ↦ false
    | some p ↦ elim (net.parse_ip node) [ none ↦ false | some ip ↦ contains (network p) ip ]
  ]

  in_prefix_lem :
      (entry node : Text) (p : Prefix)
      → net.parse_prefix entry ≡ some p
      → in_prefix entry node ≡ in_ranges (network p ∷ []) (net.parse_ip node)
  unfolding in_prefix in_ranges in_some_cidr
  in_prefix_lem entry node p e = ground arith

  -- When an entry of the text stands for a node: a range for the addresses within it, and any other
  -- entry for the node of the same key. A key is an address in its canonical form, or a host name
  -- whose case does not matter.
  pub matches : Text → Text → Bool
  unfolding in_prefix
  matches [] node = false
  matches (c ∷ s) node =
      if contains_byte (c ∷ s) b'/'
      then in_prefix (c ∷ s) node
      else text_eq (entry_key net (c ∷ s)) (entry_key net node)

  pub matches_some : List Text → Text → Bool
  matches_some [] node = false
  matches_some (e ∷ es) node = matches (trim_space e) node || matches_some es node

  entry_key_lower : (node : Text) → to_lower (entry_key net node) ≡ entry_key net node
  unfolding entry_key
  entry_key_lower node = elim (Option-cases (net.parse_ip node)) [
    | inl e ↦ rw (e, entry_key) (to_lower_idem node)
    | inr (ip, e) ↦ rw (e, entry_key) (net.print_lower ip)
  ]

  admits_lem :
      (a : NodeAllowlist) (node : Text)
      → admits net a node
        ≡ (in_ranges a.cidrs (net.parse_ip node) || has_key (entry_key net node) a.exact)
  unfolding admits entry_key in_ranges
  admits_lem a node = elim (Option-cases (net.parse_ip node)) [
    | inl e ↦ rw (e, admits, entry_key) refl
    | inr (ip, e) ↦ rw (e, admits, entry_key, net.print_lower ip) refl
  ]

  admits-add_entry :
      (a a' : NodeAllowlist) (e node : Text)
      → add_entry net a e ≡ ok a'
      → admits net a' node ≡ (admits net a node || matches e node)
  unfolding add_entry matches
  admits-add_entry a a' [] node h = ground (arith, admits_lem a node, admits_lem a' node)
  admits-add_entry a a' (c ∷ s) node h = elim (Option-cases (net.parse_prefix (c ∷ s))) [
    | inl e ↦ ground (
      arith,
      admits_lem a node,
      admits_lem a' node,
      has_key-insert_key (entry_key net node) (entry_key net (c ∷ s)) a.exact,
    )
    | inr (p, e) ↦ ground (
      arith,
      admits_lem a node,
      admits_lem a' node,
      has_key-insert_key (entry_key net node) (entry_key net (c ∷ s)) a.exact,
      in_ranges-append a.cidrs (network p) (net.parse_ip node),
      in_prefix_lem (c ∷ s) node p e,
    )
  ]

  admits-add_entries :
      (es : List Text) (a a' : NodeAllowlist) (node : Text)
      → add_entries net a es ≡ ok a'
      → admits net a' node ≡ (admits net a node || matches_some es node)
  unfolding add_entries matches_some
  admits-add_entries [] a a' node h = ground arith
  admits-add_entries (e ∷ es) a a' node h = elim (Result-cases (add_entry net a (trim_space e))) [
    | inl (b, q) ↦
        ground (arith, admits-add_entry a b (trim_space e) node q, admits-add_entries es b a' node)
    | inr (x, q) ↦ ground arith
  ]

  admits_nothing : (node : Text) → admits net (record { cidrs = []; exact = [] }) node ≡ false
  unfolding in_ranges in_some_cidr has_key
  admits_nothing node = ground (arith, admits_lem (record { cidrs = []; exact = [] }) node)

  check_node-admits :
      (a : NodeAllowlist) (node : Text) → is_ok (check_node net (some a) node) ≡ admits net a node
  unfolding check_node
  check_node-admits a node = ground arith

  parse_trimmed_exact :
      (s : Text) (a : NodeAllowlist) (node : Text)
      → parse_trimmed net s ≡ ok (some a)
      → admits net a node ≡ matches_some (split s b',') node
  unfolding parse_trimmed
  parse_trimmed_exact [] a node h = ground arith
  parse_trimmed_exact (c ∷ s) a node h =
      elim (Result-cases
        (add_entries net (record { cidrs = []; exact = [] }) (split (c ∷ s) b','))) [
          | inl (b, q) ↦ ground (
            arith,
            admits-add_entries (split (c ∷ s) b',') (record { cidrs = []; exact = [] }) b node q,
            admits_nothing node,
          )
          | inr (x, q) ↦ ground arith
        ]

  -- An allowlist that was read from text permits exactly the nodes for which one of the comma-separated
  -- entries, trimmed, stands.
  pub check_node_exact :
      (csv : Text) (a : NodeAllowlist) (node : Text)
      → parse_node_allowlist net csv ≡ ok (some a)
      → is_ok (check_node net (some a) node) ≡ matches_some (split (trim_space csv) b',') node
  unfolding parse_node_allowlist
  check_node_exact csv a node h =
      check_node-admits a node ∙ parse_trimmed_exact (trim_space csv) a node h

  check_node_ok :
      (a : NodeAllowlist) (n : Text) → admits net a n ≡ true → check_node net (some a) n ≡ ok tt
  unfolding check_node
  check_node_ok a n h = rw (h, check_node) refl

  -- An exact entry that is its own key is permitted.
  pub admits_exact :
      (a : NodeAllowlist) (k : Text)
      → entry_key net k ≡ k
      → has_key k a.exact ≡ true
      → check_node net (some a) k ≡ ok tt
  admits_exact a k e h = check_node_ok a k (admits_lem a k ∙ rw (e, h) (ground arith))

  check_each-All :
      (a : NodeAllowlist) (nodes : List Text) {u : Unit {0}}
      → check_each net a nodes ≡ ok u
      → All (λ n. check_node net (some a) n ≡ ok tt) nodes
  unfolding check_each check_node
  check_each-All a [] h = tt
  check_each-All a (n ∷ ns) {u} h = elim (Bool-cases (admits net a n)) [
    | inl p ↦ (rw p refl, check_each-All a ns {u = u} (ground arith))
    | inr p ↦ ground arith
  ]

  pub check_nodes-All :
      (allow : Option NodeAllowlist) (nodes : List Text) {u : Unit {0}}
      → check_nodes net allow nodes ≡ ok u
      → All (λ n. check_node net allow n ≡ ok tt) nodes
  unfolding check_nodes check_node
  check_nodes-All none [] h = tt
  check_nodes-All none (n ∷ ns) h = (refl, check_nodes-All none ns h)
  check_nodes-All (some a) nodes h = check_each-All a nodes h

  -- A list of nodes is refused with the error of its first node that is not permitted.
  check_nodes_first_error :
      (a : NodeAllowlist) (nodes : List Text) (e : NodeError)
      → check_nodes net (some a) nodes ≡ err e
      → (before after : List Text) × (n : Text) × (nodes ≡ before ++ n ∷ after)
        × All (λ m. check_node net (some a) m ≡ ok tt) before
        × (is_ok (check_node net (some a) n) ≡ false)
        × (e ≡ not_allowed n)
  unfolding check_nodes check_each check_node
  check_nodes_first_error a [] e h = cc
  check_nodes_first_error a (n ∷ ns) e h = elim (Bool-cases (admits net a n)) [
    | inl p ↦
        let (before, after, m, q, r, t, u) =
          check_nodes_first_error a ns e (ground (arith, check_node_ok a n p)) in
        (n ∷ before, after, m, ap (λ l. n ∷ l) q, (check_node_ok a n p, r), t, u)
    | inr p ↦ ([], ns, n, refl, tt, ground (arith, check_node-admits a n), ground arith)
  ]

  -- A context that targets nodes was made from an empty list of nodes, and is the caller's, or targets
  -- just the nodes that were asked for, all of them permitted.
  pub with_nodes_sound :
      (ctx targets : List Text) (allow : Option NodeAllowlist) (nodes : List Text)
      → with_nodes net ctx allow nodes ≡ ok targets
      → ((nodes ≡ []) × (targets ≡ ctx))
        ⊎ ((targets ≡ nodes) × All (λ n. check_node net allow n ≡ ok tt) nodes)
  unfolding with_nodes
  with_nodes_sound ctx targets allow [] h = inl (refl, ground arith)
  with_nodes_sound ctx targets allow (n ∷ ns) h =
      elim (Result-cases (check_nodes net allow (n ∷ ns))) [
        | inl (u, q) ↦ inr (ground arith, check_nodes-All allow (n ∷ ns) q)
        | inr (x, q) ↦ ground arith
      ]

  -- A single range as the whole text stands for each address within it.
  pub matches_some_range :
      (entry node : Text) (p : Prefix) (ip : Ip)
      → contains_byte entry b'/' ≡ true
      → trim_space entry ≡ entry
      → net.parse_prefix entry ≡ some p
      → net.parse_ip node ≡ some ip
      → contains (network p) ip ≡ true
      → matches_some (entry ∷ []) node ≡ true
  unfolding matches_some matches in_prefix
  matches_some_range [] node p ip s t e f h = unfold contains_byte in cc
  matches_some_range (c ∷ r) node p ip s t e f h = rw t (ground arith)

  -- A match is a match of some entry.
  pub matches_some-In :
      (es : List Text) (node : Text)
      → matches_some es node ≡ true
      → (e : Text) × In e es × (matches (trim_space e) node ≡ true)
  unfolding matches_some
  matches_some-In [] node h = cc
  matches_some-In (e ∷ es) node h = elim (Bool-cases (matches (trim_space e) node)) [
    | inl m ↦ (e, inl refl, m)
    | inr m ↦ let (d, i, k) = matches_some-In es node (ground arith) in (d, inr i, k)
  ]
