-- ===== src/Completions/Sound.antt =====
-- What internal/completions suggests for the arguments that name nodes.
use talos_mcp_server.Common.{
  ◌≡◌, refl, ◌⊎◌, inl, inr, Bool, true, false, ◌||◌, Option, none, some, List, [], ◌∷◌, arith,
  if◌then◌else◌, Bool-cases, Option-cases, Text, codes, In, ok,
}
use talos_mcp_server.Text.{text_eq, text_eq_iff, has_prefix, to_lower}
use talos_mcp_server.Text.Sorting.{sort_strings}
use talos_mcp_server.Net.{Net}
use talos_mcp_server.Nodes.{NodeAllowlist, parse_node_allowlist, check_node}
use talos_mcp_server.Nodes.Exact.{exact_entries, exact_entries-permitted}
use talos_mcp_server.Completions.{
  Reference, CompleteRequest, for_prompt, for_resource, keep_prefix, elements, filter_prefix,
  candidates, complete,
}

-- The arguments that name nodes.
unfoldable pub is_node_argument : Text → Bool
is_node_argument name = text_eq name (codes "node") || text_eq name (codes "nodes")

keep_prefix-In :
    (v p : Text) (cs : List Text)
    → In v (keep_prefix cs p)
    → In v cs × (has_prefix (to_lower v) p ≡ true)
unfolding keep_prefix
keep_prefix-In v p [] i = absurd i
keep_prefix-In v p (c ∷ cs) i = elim (Bool-cases (has_prefix (to_lower c) p)) [
  | inl e ↦ elim (rw e at i) [
    | inl q ↦ (inl q, rw q e)
    | inr j ↦ let (k, r) = keep_prefix-In v p cs j in (inr k, r)
  ]
  | inr e ↦ let (k, r) = keep_prefix-In v p cs (rw e at i) in (inr k, r)
]

filter_prefix-In :
    (v partial : Text) (cands : Option (List Text))
    → In v (elements (filter_prefix cands partial))
    → In v (elements cands) × (has_prefix (to_lower v) (to_lower partial) ≡ true)
unfolding filter_prefix has_prefix to_lower
filter_prefix-In v [] cands i = (i, refl)
filter_prefix-In v (c ∷ s) cands i = keep_prefix-In v (to_lower (c ∷ s)) (elements cands) i

-- No candidates, or the exact entries of the allowlist.
abbrev OnlyEntries : Option NodeAllowlist → Option (List Text) → Type 0
OnlyEntries nodes cands = (cands ≡ none) ⊎ (cands ≡ exact_entries nodes)

either :
    (nodes : Option NodeAllowlist) (b : Bool) (x y : Option (List Text))
    → OnlyEntries nodes x
    → OnlyEntries nodes y
    → OnlyEntries nodes (if b then x else y)
either nodes true x y p q = p
either nodes false x y p q = q

prompt_node :
    (nodes : Option NodeAllowlist) (prompt : Text)
    → OnlyEntries nodes (for_prompt prompt (codes "node") nodes)
unfolding for_prompt text_eq
prompt_node nodes prompt = ground arith

prompt_nodes :
    (nodes : Option NodeAllowlist) (prompt : Text)
    → OnlyEntries nodes (for_prompt prompt (codes "nodes") nodes)
unfolding for_prompt text_eq
prompt_nodes nodes prompt = ground arith

resource_node :
    (nodes : Option NodeAllowlist) (uri : Text)
    → OnlyEntries nodes (for_resource uri (codes "node") nodes)
unfolding for_resource text_eq
resource_node nodes uri = either nodes _ _ _ (inl refl) (inr refl)

resource_nodes :
    (nodes : Option NodeAllowlist) (uri : Text)
    → OnlyEntries nodes (for_resource uri (codes "nodes") nodes)
unfolding for_resource text_eq
resource_nodes nodes uri = either nodes _ _ _ (inl refl) (inl refl)

named :
    (name : Text) → is_node_argument name ≡ true → (name ≡ codes "node") ⊎ (name ≡ codes "nodes")
unfolding is_node_argument
named name h = elim (Bool-cases (text_eq name (codes "node"))) [
  | inl e ↦ inl ((text_eq_iff name (codes "node")).0 e)
  | inr e ↦ inr ((text_eq_iff name (codes "nodes")).0 (rw e at h))
]

node_candidates :
    (nodes : Option NodeAllowlist) (ref : Reference) (name : Text)
    → (name ≡ codes "node") ⊎ (name ≡ codes "nodes")
    → OnlyEntries nodes (candidates nodes ref name)
unfolding candidates
node_candidates nodes ref name (inl e) = rw e (
    either nodes _ _ _ (prompt_node nodes ref.name)
      (either nodes _ _ _ (resource_node nodes ref.uri) (inl refl)))
node_candidates nodes ref name (inr e) = rw e (
    either nodes _ _ _ (prompt_nodes nodes ref.name)
      (either nodes _ _ _ (resource_nodes nodes ref.uri) (inl refl)))

entries_In :
    (a : NodeAllowlist) (v : Text) (cands : Option (List Text))
    → OnlyEntries (some a) cands
    → In v (elements cands)
    → In v (sort_strings a.exact)
unfolding exact_entries
entries_In a v cands (inl e) i = absurd (rw e at i)
entries_In a v cands (inr e) i = rw e at i

module _ (net : Net)
    (case_blind : (s : Text) → net.parse_ip s ≡ none → net.parse_ip (to_lower s) ≡ none) where
  -- Under an allowlist that was read from text, a client that completes an argument that names nodes is
  -- only offered nodes that the allowlist permits, and that start with what it has typed, whatever
  -- the case. Reading an address must not depend on the case of its letters.
  pub complete-Permitted :
      (csv : Text) (a : NodeAllowlist) (req : CompleteRequest) (v : Text)
      → parse_node_allowlist net csv ≡ ok (some a)
      → is_node_argument req.argument_name ≡ true
      → In v (complete (some a) req)
      → (check_node net (some a) v ≡ ok tt)
        × (has_prefix (to_lower v) (to_lower req.argument_value) ≡ true)
  unfolding complete
  complete-Permitted csv a req v h n i = elim (Option-cases req.reference) [
    | inl e ↦ absurd (rw (e, complete) at i)
    | inr (ref, e) ↦
        let (j, p) =
          filter_prefix-In v req.argument_value (candidates (some a) ref req.argument_name)
            (rw (e, complete) at i) in
        (
          exact_entries-permitted net case_blind csv a v h (
              entries_In a v (candidates (some a) ref req.argument_name)
                (node_candidates (some a) ref req.argument_name (named req.argument_name n)) j),
          p,
        )
  ]
