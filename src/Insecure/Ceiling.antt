-- ===== src/Insecure/Ceiling.antt =====
-- What CheckInsecureAllowlist of internal/config/insecure.go accepts and reports, together with
-- ParseNodeAllowlist on the same text.
use talos_mcp_server.Common.{
  ◌≤◌, ◌<◌, ◌≡◌, refl, ◌≢◌, ◌⊎◌, inl, inr, Bool, true, false, ◌&&◌, none, some, List, [], ◌∷◌,
  arith, ltb, if◌then◌else◌, Bool-cases, Option-cases, Result-cases, Text, is_empty, All, ok,
}
use talos_mcp_server.Text.{contains_byte, trim_space}
use talos_mcp_server.Text.Parts.{split}
use talos_mcp_server.Net.{Prefix, Net}
use talos_mcp_server.Nodes.{NodeAllowlist, parse_node_allowlist, len}
use talos_mcp_server.Nodes.Parsing.{Readable, some_entry, parse_node_allowlist_total}
use talos_mcp_server.Insecure.{
  inspect_cidr, inspect_entry, inspect_entries, has_entry, check_insecure_allowlist,
  hard_refuse_mask, warn_mask,
}

has_entry-some_entry : (es : List Text) → has_entry es ≡ some_entry es
unfolding has_entry some_entry
has_entry-some_entry [] = refl
has_entry-some_entry (e ∷ es) = rw (has_entry-some_entry es)

module _ (net : Net) where
  -- A range that is accepted, but broader than recommended.
  pub is_broad : Text → Bool
  is_broad entry =
      contains_byte entry b'/'
      && (elim (net.parse_prefix entry) [ none ↦ false | some p ↦ ltb p.ones (warn_mask p.bits) ])

  pub broad_entries : List Text → List Text
  broad_entries [] = []
  broad_entries (e ∷ es) =
      let rest = broad_entries es in if is_broad (trim_space e) then trim_space e ∷ rest else rest

  -- Blank, or an address, or a range whose prefix is at least as long as the hard threshold.
  abbrev pub WithinCeiling : Text → Type 0
  WithinCeiling entry =
      (entry ≡ [])
      ⊎ ((contains_byte entry b'/' ≡ false) × (net.parse_ip entry ≢ none))
      ⊎ ((p : Prefix) × (net.parse_prefix entry ≡ some p) × (hard_refuse_mask p.bits ≤ p.ones))

  abbrev singleton_if : Bool → Text → List Text
  singleton_if b e = if b then e ∷ [] else []

  inspect_cidr_sound :
      (entry : Text) (broad : List Text)
      → contains_byte entry b'/' ≡ true
      → inspect_cidr net entry ≡ ok broad
      → ((p : Prefix) × (net.parse_prefix entry ≡ some p) × (hard_refuse_mask p.bits ≤ p.ones))
        × (broad ≡ singleton_if (is_broad entry) entry)
  unfolding inspect_cidr is_broad
  inspect_cidr_sound entry broad s h = elim (Option-cases (net.parse_prefix entry)) [
    | inl e ↦ ground arith
    | inr (p, e) ↦ ((p, e, ground arith), ground arith)
  ]

  inspect_entry_sound :
      (entry : Text) (broad : List Text)
      → inspect_entry net entry ≡ ok broad
      → WithinCeiling entry × (broad ≡ singleton_if (is_broad entry) entry)
  unfolding inspect_entry
  inspect_entry_sound [] broad h = (inl refl, unfold is_broad contains_byte in ground arith)
  inspect_entry_sound (c ∷ s) broad h = elim (Bool-cases (contains_byte (c ∷ s) b'/')) [
    | inl e ↦ let (p, q) = inspect_cidr_sound (c ∷ s) broad e (ground arith) in (inr (inr p), q)
    | inr e ↦ elim (Option-cases (net.parse_ip (c ∷ s))) [
      | inl n ↦ ground arith
      | inr (ip, n) ↦ (inr (inl (e, λ z. cc)), unfold is_broad in ground arith)
    ]
  ]

  inspect_entries_sound :
      (es broad : List Text)
      → inspect_entries net es ≡ ok broad
      → All (λ e. WithinCeiling (trim_space e)) es × (broad ≡ broad_entries es)
  unfolding inspect_entries broad_entries
  inspect_entries_sound [] broad h = (tt, ground arith)
  inspect_entries_sound (e ∷ es) broad h = elim (Result-cases (inspect_entry net (trim_space e))) [
    | inl (b, p) ↦ elim (Result-cases (inspect_entries net es)) [
      | inl (r, q) ↦
          let (w, f) = inspect_entry_sound (trim_space e) b p in
          let (ws, g) = inspect_entries_sound es r q in ((w, ws), ground arith)
      | inr (x, q) ↦ ground arith
    ]
    | inr (x, p) ↦ ground arith
  ]

  -- An accepted allowlist text has an entry, every entry is an address or a range within the ceiling,
  -- and the reported entries are exactly the ranges broader than recommended.
  pub check_insecure_allowlist_sound :
      (raw : Text) (broad : List Text)
      → check_insecure_allowlist net raw ≡ ok broad
      → (is_empty (trim_space raw) ≡ false)
        × (some_entry (split (trim_space raw) b',') ≡ true)
        × All (λ e. WithinCeiling (trim_space e)) (split (trim_space raw) b',')
        × (broad ≡ broad_entries (split (trim_space raw) b','))
  unfolding check_insecure_allowlist
  check_insecure_allowlist_sound raw broad h =
      let entries = split (trim_space raw) b',' in
      elim (Result-cases (inspect_entries net entries)) [
        | inl (b, p) ↦
            let (w, e) = inspect_entries_sound entries b p in
            (ground arith, ground (arith, has_entry-some_entry entries), w, ground arith)
        | inr (x, p) ↦ ground arith
      ]

  WithinCeiling-Readable : (entry : Text) → WithinCeiling entry → Readable net entry
  WithinCeiling-Readable entry (inl e) s = absurd (blank entry e s)
    where
      blank : (t : Text) → t ≡ [] → contains_byte t b'/' ≡ true → ⊥
      blank [] e s = unfold contains_byte in cc
      blank (c ∷ t) e s = cc
  WithinCeiling-Readable entry (inr (inl (e, n))) s = cc
  WithinCeiling-Readable entry (inr (inr (p, e, h))) s = (p, e)

  -- The text that passes the ceiling is read as a node allowlist with at least one entry, so the two
  -- later checks of the start-up never fail.
  pub parse-check_insecure_allowlist :
      (raw : Text) (broad : List Text)
      → check_insecure_allowlist net raw ≡ ok broad
      → (a : NodeAllowlist) × (parse_node_allowlist net raw ≡ ok (some a)) × (0 < len (some a))
  parse-check_insecure_allowlist raw broad h =
      let (n, s, w, _) = check_insecure_allowlist_sound raw broad h in
      let (a, p, q) =
        parse_node_allowlist_total net raw n (readable (split (trim_space raw) b',') w) in
      (a, p, q s)
    where
      readable :
          (es : List Text)
          → All (λ e. WithinCeiling (trim_space e)) es
          → All (λ e. Readable net (trim_space e)) es
      readable [] w = tt
      readable (e ∷ es) w = (WithinCeiling-Readable (trim_space e) w.0, readable es w.1)
