-- ===== src/Tools/Files/Bounds.antt =====
-- How much of a file and of a directory the handlers return.
use mathlib.Core.Path.{subst}
use talos_mcp_server.Common.{
  ℕ, ◌+◌, ◌≤◌, ◌<◌, ◌≡◌, refl, sym, ap, ◌∙◌, ◌⊎◌, inl, inr, Bool, true, false, Option, none, some,
  List, [], ◌∷◌, ◌++◌, append-nil, append_assoc, arith, ltb, leb, ◌==◌, if◌then◌else◌, Bool-cases,
  if_cases, Option-cases, ◌>>=◌, Text, codes, length, take, length-append, is_empty, Result, ok,
  err,
}
use talos_mcp_server.Text.Number.{max_int}
use talos_mcp_server.Net.{Net}
use talos_mcp_server.Nodes.{with_nodes}
use talos_mcp_server.Tools.Effect.{Handlers}
use talos_mcp_server.Tools.Stream.{Stream, note_error}
use talos_mcp_server.Common.Lists.{take_all, take-append, take-take, length-take_le}
use talos_mcp_server.Tools.Files.{
  FileInfo, FileEntry, Listing, Content, Reader, ListFilesArgs, ReadFileArgs, FilesError, entry,
  stream_failed, read_failed, max_list_entries, check_path_allowed, collect_entries, read_limit,
  read_limited, cut, max_bytes_or_default, handle_list_files, handle_read_file,
}

-- Data up to the limit, and whether there is more; or the error of a reader that fails before.
abbrev pub ReadsPrefix : ℕ → Reader → Result FilesError Content → Type 0
ReadsPrefix max r out =
    (((r.failure ≡ none) ⊎ (max < length r.data_behind))
      × (out
          ≡ ok (record {
            content = take max r.data_behind;
            truncated = ltb max (length r.data_behind);
            max_bytes = max;
          })))
    ⊎ ((e : Text) × (r.failure ≡ some e)
        × (length r.data_behind ≤ max)
        × (out ≡ err (read_failed e)))

cut_all :
    (max : ℕ) (data_read : Text)
    → length data_read ≤ max
    → cut max data_read ≡ record {
      content = take max data_read;
      truncated = ltb max (length data_read);
      max_bytes = max;
    }
unfolding cut
cut_all max d l =
    let no : ltb max (length d) ≡ false = ground arith in
    rw no (
      ap (λ c. record { content = c; truncated = false; max_bytes = max }) (sym (take_all max d l)))

cut_more :
    (max : ℕ) (d : Text)
    → max < length d
    → cut max (take (max + 1) d)
      ≡ record { content = take max d; truncated = ltb max (length d); max_bytes = max }
unfolding cut
cut_more max d l =
    let long = length-take_le (max + 1) d (omega arith) in
    let yes : ltb max (length d) ≡ true = ground arith in
    let over : ltb max (length (take (max + 1) d)) ≡ true = ground arith in
    rw (yes, over)
      (ap (λ c. record { content = c; truncated = true; max_bytes = max })
        (take-take max (max + 1) d (omega arith)))

-- The named entries of a stream.
pub named : List FileInfo → List FileEntry
named [] = []
named (i ∷ is) = let rest = named is in if is_empty i.name then rest else entry i ∷ rest

-- The first entries, and whether there are more; or the error of a stream that breaks before.
abbrev pub FirstEntries : ℕ → List FileEntry → Option Text → Result FilesError Listing → Type 0
FirstEntries limit all end r =
    (((end ≡ none) ⊎ (limit < length all))
      × (out : Listing) × (r ≡ ok out)
      × (out.entries ≡ take limit all)
      × (out.truncated ≡ ltb limit (length all)))
    ⊎ ((e : Text) × (end ≡ some e) × (length all ≤ limit) × (r ≡ err (stream_failed e)))

collect_entries-FirstEntries :
    (limit : ℕ) (kept : Listing) (is : List FileInfo) (end : Option Text)
    → kept.truncated ≡ false
    → length kept.entries ≤ limit
    → FirstEntries limit (kept.entries ++ named is) end (collect_entries limit kept is end)
unfolding collect_entries named
collect_entries-FirstEntries limit kept [] none f l =
    let no : ltb limit (length kept.entries) ≡ false = ground arith in
    rw (append-nil kept.entries)
      (inl (inl refl, kept, refl, sym (take_all limit kept.entries l), f ∙ sym no))
collect_entries-FirstEntries limit kept [] (some e) f l =
    rw (append-nil kept.entries) (inr (e, refl, l, refl))
collect_entries-FirstEntries limit kept (i ∷ is) end f l =
    let noted : Listing = record kept { node_errors = note_error i.metadata kept.node_errors } in
    let added : Listing = record kept { entries = kept.entries ++ entry i ∷ [] } in
    let long = length-append kept.entries (entry i ∷ []) in
    let all_long = length-append kept.entries (entry i ∷ named is) in
    if_cases
      (λ x.
        FirstEntries limit
          (kept.entries ++ (if is_empty i.name then named is else entry i ∷ named is)) end x)
      (is_empty i.name) _ _ (λ e. rw e (collect_entries-FirstEntries limit noted is end f l))
      (λ e. rw e (
        if_cases (FirstEntries limit (kept.entries ++ entry i ∷ named is) end)
          (leb limit (length kept.entries)) _ _
          (λ t.
            let full : limit ≡ length kept.entries = ground arith in
            let more : ltb limit (length (kept.entries ++ entry i ∷ named is)) ≡ true =
              ground arith in
            inl (
              inr (omega arith),
              record kept { truncated = true },
              refl,
              sym (take-append kept.entries (entry i ∷ named is) limit full),
              sym more,
            ))
          (λ t.
            subst (λ all. FirstEntries limit all end (collect_entries limit added is end))
              (append_assoc kept.entries (entry i ∷ []) (named is))
              (collect_entries-FirstEntries limit added is end f (ground arith)))))

read_zero : (r : Reader) → read_limited 0 r ≡ ok []
unfolding read_limited
read_zero r = let all : leb 0 (length r.data_behind) ≡ true = ground arith in rw all refl

read_nothing :
    (r : Reader)
    → (read_limited (read_limit (max_bytes_or_default max_int)) r >>= λ buf.
        ok (cut (max_bytes_or_default max_int) buf))
      ≡ ok (record { content = []; truncated = false; max_bytes = max_int })
unfolding cut read_limit max_bytes_or_default
read_nothing r = rw (read_zero r) refl

module _ (net : Net) (h : Handlers) where
  -- For a permitted path and nodes and a stream that opens, a listing has the first 10000 named entries
  -- of the stream and tells whether there are more; but if the stream breaks before there are more, the
  -- result is its error.
  handle_list_files-FirstEntries :
      (list : List Text → Text → Bool → Result Text (Stream FileInfo)) (args : ListFilesArgs)
      (targets : List Text) (stream : Stream FileInfo)
      → let path = if is_empty args.path then codes "/" else args.path in
        check_path_allowed path h.allowed_paths ≡ ok tt
        → with_nodes net [] h.allowed_nodes args.nodes ≡ ok targets
        → list targets path args.recurse ≡ ok stream
        → FirstEntries max_list_entries
            (named stream.messages)
            stream.failure
            (handle_list_files net h list args)
  unfolding handle_list_files
  handle_list_files-FirstEntries list args targets stream allowed permitted opens = rw allowed (
      rw permitted (
        rw opens (
          collect_entries-FirstEntries max_list_entries
            (record { entries = []; truncated = false; node_errors = [] }) stream.messages
            stream.failure refl (omega arith))))

  read_limited-ReadsPrefix :
      (max : ℕ) (r : Reader) (targets : List Text)
      → ReadsPrefix max r (read_limited (max + 1) r >>= λ buf. ok (cut max buf))
  unfolding read_limited
  read_limited-ReadsPrefix max r targets =
      elim (Bool-cases (leb (max + 1) (length r.data_behind))) [
        | inl t ↦ rw t (inl (inr (ground arith), ap ok (cut_more max r.data_behind (ground arith))))
        | inr f ↦ elim (Option-cases r.failure) [
          | inl n ↦ rw (f, n) (inl (inl refl, ap ok (cut_all max r.data_behind (ground arith))))
          | inr (e, n) ↦ rw (f, n) (inr (e, refl, ground arith, refl))
        ]
      ]

  -- For a permitted path and nodes, a reader that opens, and a limit below the largest int, the content
  -- of a file is its data up to the limit (32768 bytes if it is not positive), marked as truncated just
  -- if there is more; but if the reader fails within the limit, the result is its error.
  pub handle_read_file-ReadsPrefix :
      (read : List Text → Text → Result Text Reader) (args : ReadFileArgs) (targets : List Text)
      (r : Reader)
      → check_path_allowed args.path h.allowed_paths ≡ ok tt
      → with_nodes net [] h.allowed_nodes args.nodes ≡ ok targets
      → read targets args.path ≡ ok r
      → args.max_bytes < max_int
      → ReadsPrefix (max_bytes_or_default args.max_bytes) r (handle_read_file net h read args)
  unfolding handle_read_file read_limit max_bytes_or_default
  handle_read_file-ReadsPrefix read args targets r allowed permitted opens small =
      let max = max_bytes_or_default args.max_bytes in
      let below : (max == max_int) ≡ false = ground arith in
      rw allowed (rw permitted (rw opens (rw below (read_limited-ReadsPrefix max r targets))))

  -- With the largest int as the limit, any file that opens reads as empty and complete.
  handle_read_file-max_int :
      (read : List Text → Text → Result Text Reader) (args : ReadFileArgs) (targets : List Text)
      (r : Reader)
      → check_path_allowed args.path h.allowed_paths ≡ ok tt
      → with_nodes net [] h.allowed_nodes args.nodes ≡ ok targets
      → read targets args.path ≡ ok r
      → args.max_bytes ≡ max_int
      → handle_read_file net h read args
        ≡ ok (record { content = []; truncated = false; max_bytes = max_int })
  unfolding handle_read_file
  handle_read_file-max_int read args targets r allowed permitted opens e =
      rw (allowed, permitted) (rw opens (rw e (read_nothing r)))
