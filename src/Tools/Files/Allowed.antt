-- ===== src/Tools/Files/Allowed.antt =====
-- What the path allowlist lets through.
use talos_mcp_server.Common.{
  ◌≡◌, refl, sym, ap, ◌∙◌, ◌≢◌, ◌↔◌, ◌⊎◌, inl, inr, true, ◌||◌, List, [], ◌∷◌, ◌++◌, append_assoc,
  arith, Bool-cases, Result-cases, Text, All, In, Result, ok,
}
use talos_mcp_server.Text.{text_eq, text_eq_iff, has_prefix, has_prefix-append, has_prefix_split}
use talos_mcp_server.Text.Parts.{join}
use talos_mcp_server.Text.FilePath.{is_abs, clean}
use talos_mcp_server.Text.FilePath.Rooted.{EntryName, clean_rooted}
use talos_mcp_server.Net.{Net}
use talos_mcp_server.Nodes.{with_nodes}
use talos_mcp_server.Tools.Effect.{Handlers}
use talos_mcp_server.Tools.Files.{
  Content, Reader, ReadFileArgs, trim_slash, under_any, check_path_allowed, handle_read_file,
}

-- A path is a directory, or stands below it.
abbrev pub Under : Text → Text → Type 0
Under dir path = (path ≡ dir) ⊎ ((rest : Text) × (path ≡ trim_slash dir ++ b'/' ∷ rest))

abbrev pub UnderAny : List Text → Text → Type 0
UnderAny dirs path = (dir : Text) × In dir dirs × Under dir path

below : (dir path : Text) → has_prefix path (trim_slash dir ++ b'/' ∷ []) ≡ true → Under dir path
below dir path p =
    let (rest, e) = has_prefix_split path (trim_slash dir ++ b'/' ∷ []) p in
    inr (rest, e ∙ append_assoc (trim_slash dir) (b'/' ∷ []) rest)

under_any_sound : (path : Text) (dirs : List Text) → under_any path dirs ≡ true → UnderAny dirs path
unfolding under_any
under_any_sound path [] h = cc
under_any_sound path (d ∷ ds) h = elim (Bool-cases (text_eq path d)) [
  | inl e ↦ (d, inl refl, inl ((text_eq_iff path d).0 e))
  | inr e ↦ elim (Bool-cases (has_prefix path (trim_slash d ++ b'/' ∷ []))) [
    | inl p ↦ (d, inl refl, below d path p)
    | inr p ↦ let (dir, i, u) = under_any_sound path ds (ground arith) in (dir, inr i, u)
  ]
]

test_complete :
    (path dir : Text)
    → Under dir path
    → (text_eq path dir || has_prefix path (trim_slash dir ++ b'/' ∷ [])) ≡ true
test_complete path dir (inl e) =
    let same : text_eq path dir ≡ true = (text_eq_iff path dir).1 e in ground arith
test_complete path dir (inr (rest, e)) =
    let behind : has_prefix path (trim_slash dir ++ b'/' ∷ []) ≡ true =
      ap (λ p. has_prefix p (trim_slash dir ++ b'/' ∷ []))
        (e ∙ sym (append_assoc (trim_slash dir) (b'/' ∷ []) rest))
      ∙ has_prefix-append (trim_slash dir ++ b'/' ∷ []) rest in
    ground arith

under_any_complete :
    (path : Text) (dirs : List Text) → UnderAny dirs path → under_any path dirs ≡ true
unfolding under_any
under_any_complete path [] (dir, i, u) = absurd i
under_any_complete path (d ∷ ds) (dir, inl e, u) =
    let here = test_complete path d (rw (← e) u) in ground arith
under_any_complete path (d ∷ ds) (dir, inr i, u) =
    let there = under_any_complete path ds (dir, i, u) in ground arith

-- A path is accepted just if there is no allowlist, or if its cleaned form is one of the allowed
-- directories or stands below one.
check_path_allowed_iff :
    (raw_path : Text) (allowed : List Text)
    → (check_path_allowed raw_path allowed ≡ ok tt)
      ↔ ((allowed ≡ []) ⊎ UnderAny allowed (clean raw_path))
unfolding check_path_allowed
check_path_allowed_iff raw_path [] = (λ _. inl refl, λ _. refl)
check_path_allowed_iff raw_path (d ∷ ds) = (
  λ h. inr (under_any_sound (clean raw_path) (d ∷ ds) (ground arith)),
  λ u. elim u [
    | inl e ↦ cc
    | inr v ↦ let found = under_any_complete (clean raw_path) (d ∷ ds) v in rw found refl
  ],
)

module _ (net : Net) (h : Handlers) where
  -- Permitted nodes were asked for the path as it was given, and answered.
  abbrev pub Asked : (List Text → Text → Result Text Reader) → ReadFileArgs → Type 0
  Asked read args =
      (targets : List Text) × (reader : Reader) × (with_nodes net [] h.allowed_nodes args.nodes
        ≡ ok targets)
      × (read targets args.path ≡ ok reader)

  -- A read with an absolute path that succeeds while there is a path allowlist asked permitted nodes
  -- for the path as it was given, whose cleaned text is one of the allowed directories or stands below
  -- one: it is the root with names of entries behind it, none of which leads back out. This is about
  -- the text: a node resolves the path with its own links, which may lead elsewhere.
  pub read_file_allowed :
      (read : List Text → Text → Result Text Reader) (args : ReadFileArgs) (c : Content)
      → h.allowed_paths ≢ []
      → is_abs args.path ≡ true
      → handle_read_file net h read args ≡ ok c
      → Asked read args
        × UnderAny h.allowed_paths (clean args.path)
        × (es : List Text) × (clean args.path ≡ b'/' ∷ join es b'/')
        × All EntryName es
  unfolding handle_read_file
  read_file_allowed read args c some_list abs reads =
      let passed : check_path_allowed args.path h.allowed_paths ≡ ok tt =
        elim (Result-cases (check_path_allowed args.path h.allowed_paths)) [
          | inl (u, p) ↦ p
          | inr (e, p) ↦ ground arith
        ] in
      let asked =
        elim (Result-cases (with_nodes net [] h.allowed_nodes args.nodes))
          as (λ _. Asked read args) [
            | inl (targets, p) ↦ elim (Result-cases (read targets args.path)) [
              | inl (reader, q) ↦ (targets, reader, p, q)
              | inr (e, q) ↦ absurd (ground arith)
            ]
            | inr (e, p) ↦ absurd (ground arith)
          ] in
      elim ((check_path_allowed_iff args.path h.allowed_paths).0 passed) [
        | inl none_listed ↦ absurd (some_list none_listed)
        | inr under ↦
            let (es, q, names) = clean_rooted args.path abs in (asked, under, es, q, names)
      ]
