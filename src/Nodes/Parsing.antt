-- ===== src/Nodes/Parsing.antt =====
-- When ParseNodeAllowlist of internal/talos/nodes.go succeeds.
use talos_mcp_server.Common.{
  ◌≤◌, ◌<◌, ◌≡◌, refl, inl, inr, Bool, true, false, not, ◌||◌, some, List, [], ◌∷◌, ◌++◌, arith,
  Bool-cases, Text, length, length-append, is_empty, All, ok,
}
use talos_mcp_server.Text.{contains_byte, trim_space}
use talos_mcp_server.Text.Parts.{split}
use talos_mcp_server.Net.{network, Prefix, Net}
use talos_mcp_server.Nodes.{
  NodeAllowlist, entry_key, add_cidr, add_entry, add_entries, insert_key, has_key, parse_trimmed,
  parse_node_allowlist, len,
}

-- Some entry is more than white space.
unfoldable pub some_entry : List Text → Bool
some_entry [] = false
some_entry (e ∷ es) = not (is_empty (trim_space e)) || some_entry es

insert_key_size :
    (k : Text) (ks : List Text)
    → (length ks ≤ length (insert_key k ks)) × (0 < length (insert_key k ks))
unfolding insert_key has_key
insert_key_size k [] = omega arith
insert_key_size k (j ∷ js) = ground (arith, length-append (j ∷ js) (k ∷ []))

module _ (net : Net) where
  -- An entry with a slash is a readable range.
  abbrev pub Readable : Text → Type 0
  Readable entry =
      contains_byte entry b'/' ≡ true → (p : Prefix) × (net.parse_prefix entry ≡ some p)

  add_entry_total :
      (a : NodeAllowlist) (entry : Text)
      → Readable entry
      → (a' : NodeAllowlist) × (add_entry net a entry ≡ ok a')
        × (len (some a) ≤ len (some a'))
        × (is_empty entry ≡ false → 0 < len (some a'))
  unfolding add_entry add_cidr len
  add_entry_total a [] h = (a, refl, omega arith, λ e. ground arith)
  add_entry_total a (c ∷ s) h = elim (Bool-cases (contains_byte (c ∷ s) b'/')) [
    | inl e ↦
        let (p, q) = h e in
        (
          record a { cidrs = a.cidrs ++ network p ∷ [] },
          ground arith,
          ground (arith, length-append a.cidrs (network p ∷ [])),
          λ _. ground (arith, length-append a.cidrs (network p ∷ [])),
        )
    | inr e ↦ (
      record a { exact = insert_key (entry_key net (c ∷ s)) a.exact },
      ground arith,
      ground (arith, insert_key_size (entry_key net (c ∷ s)) a.exact),
      λ _. ground (arith, insert_key_size (entry_key net (c ∷ s)) a.exact),
    )
  ]

  add_entries_total :
      (es : List Text) (a : NodeAllowlist)
      → All (λ e. Readable (trim_space e)) es
      → (a' : NodeAllowlist) × (add_entries net a es ≡ ok a')
        × (len (some a) ≤ len (some a'))
        × (some_entry es ≡ true → 0 < len (some a'))
  unfolding add_entries some_entry
  add_entries_total [] a h = (a, refl, omega arith, λ e. ground arith)
  add_entries_total (e ∷ es) a h =
      let (b, p, m, q) = add_entry_total a (trim_space e) h.0 in
      let (c, r, n, t) = add_entries_total es b h.1 in
      (c, rw p r, omega arith, λ k. positive b c n q t (is_empty (trim_space e)) refl k)
    where
      positive :
          (b c : NodeAllowlist)
          → len (some b) ≤ len (some c)
          → (is_empty (trim_space e) ≡ false → 0 < len (some b))
          → (some_entry es ≡ true → 0 < len (some c))
          → (t : Bool) → is_empty (trim_space e) ≡ t
          → (not t || some_entry es) ≡ true
          → 0 < len (some c)
      positive b c n q t true k g = t g
      positive b c n q t false k g = omega (arith, q k)

  parse_trimmed_total :
      (s : Text)
      → is_empty s ≡ false
      → All (λ e. Readable (trim_space e)) (split s b',')
      → (a : NodeAllowlist) × (parse_trimmed net s ≡ ok (some a))
        × (some_entry (split s b',') ≡ true → 0 < len (some a))
  unfolding parse_trimmed
  parse_trimmed_total [] e h = cc
  parse_trimmed_total (c ∷ s) e h =
      let (a, p, _, q) =
        add_entries_total (split (c ∷ s) b',') (record { cidrs = []; exact = [] }) h in
      (a, rw p refl, q)

  -- A text that is not blank, and whose entries with a slash are all readable ranges, is read; the
  -- allowlist holds something if an entry is more than white space.
  pub parse_node_allowlist_total :
      (csv : Text)
      → is_empty (trim_space csv) ≡ false
      → All (λ e. Readable (trim_space e)) (split (trim_space csv) b',')
      → (a : NodeAllowlist) × (parse_node_allowlist net csv ≡ ok (some a))
        × (some_entry (split (trim_space csv) b',') ≡ true → 0 < len (some a))
  unfolding parse_node_allowlist
  parse_node_allowlist_total csv = parse_trimmed_total (trim_space csv)
