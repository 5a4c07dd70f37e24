-- ===== src/Tools/Files.antt =====
-- internal/tools/files.go: the path allowlist, and `HandleListFiles` and `HandleReadFile`. The text
-- form of a result is left out. A negative count of bytes counts as 0.
pub mod Allowed
pub mod Bounds
pub mod Tests
use talos_mcp_server.Common.{
  ℕ, zero, suc, ◌+◌, ◌-◌, ◌*◌, ◌/◌, ◌%◌, ◌^◌, ◌≤◌, ◌<◌, ◌≡◌, refl, sym, ap, ◌∙◌, ◌≢◌, ◌↔◌, ◌⊎◌, inl,
  inr, Bool, true, false, not, ◌&&◌, ◌||◌, Option, none, some, List, [], ◌∷◌, ◌++◌, map, append-nil,
  append_assoc, arith, ltb, leb, ◌==◌, if◌then◌else◌, Bool-cases, if_cases, Option-cases, ◌>>=◌,
  is_ok, Result-cases, Text, codes, length, take, drop, length-append, is_empty, All, All-append,
  In, In-append_left, In-append_right, In-append_cases, Result, ok, err,
}
use talos_mcp_server.Text.{
  text_eq, text_eq_iff, text_eq_refl, has_prefix, after_prefix, trim_prefix, has_prefix-append,
  has_prefix_split, contains_byte, Lacks, contains_byte-Lacks, trim_left, trim_right, trim_space,
  to_lower, to_lower_idem,
}
use talos_mcp_server.Text.Parts.{split}
use talos_mcp_server.Text.FilePath.{clean}
use talos_mcp_server.Text.Number.{max_int}
use talos_mcp_server.Net.{
  Ip, v4_in_v6_prefix, is_mapped, to4, cidr_mask, and_bytes, mask_ip, network, or_self, number_mask,
  same_masked, contains, byte_at, is_unspecified, is_loopback, is_link_local_unicast, is_multicast,
  Prefix, IpNet, Net,
}
use talos_mcp_server.Nodes.{NodeError, with_nodes}
use talos_mcp_server.Tools.Effect.{Handlers}
use talos_mcp_server.Tools.Stream.{Stream, NodeErrors, note_error}

-- A message of machine.FileInfo: its fields, and its metadata with a hostname and an error.
pub record FileInfo : Type 0 where
  pub name : Text
  pub relative_name : Text
  pub size : ℕ
  pub is_dir : Bool
  pub mode : ℕ
  pub metadata : Option (Text × Text)

pub record FileEntry : Type 0 where
  pub name : Text
  pub relative_name : Text
  pub size : ℕ
  pub is_dir : Bool
  -- `none` is left out; else it is printed in octal.
  pub mode : Option ℕ

pub record Listing : Type 0 where
  pub entries : List FileEntry
  pub truncated : Bool
  pub node_errors : NodeErrors

pub record Content : Type 0 where
  pub content : Text
  pub truncated : Bool
  pub max_bytes : ℕ

-- The stream of a file's bytes, and the error behind them, if there is one.
pub record Reader : Type 0 where
  pub data_behind : Text
  pub failure : Option Text

pub record ListFilesArgs : Type 0 where
  pub path : Text
  pub recurse : Bool
  pub nodes : List Text

pub record ReadFileArgs : Type 0 where
  pub path : Text
  pub max_bytes : ℕ
  pub nodes : List Text

pub data FilesError : Type 0 where
  path_not_allowed : Text → FilesError
  nodes_refused : NodeError → FilesError
  list_failed stream_failed open_failed read_failed : Text → FilesError

abbrev pub default_read_max_bytes : ℕ
default_read_max_bytes = 32768

abbrev pub max_list_entries : ℕ
max_list_entries = 10000

-- The entries of the list, trimmed and cleaned.
allowed_entries : List Text → List Text
allowed_entries [] = []
allowed_entries (p ∷ ps) =
    let trimmed = trim_space p in
    let rest = allowed_entries ps in if is_empty trimmed then rest else clean trimmed ∷ rest

unfoldable pub parse_allowed_paths : Text → List Text
unfolding allowed_entries
parse_allowed_paths [] = []
parse_allowed_paths (c ∷ raw) = allowed_entries (split (c ∷ raw) b',')

-- strings.TrimSuffix(prefix, "/")
pub trim_slash : Text → Text
trim_slash [] = []
trim_slash (c ∷ []) = if c == b'/' then [] else c ∷ []
trim_slash (c ∷ d ∷ s) = c ∷ trim_slash (d ∷ s)

-- Whether a cleaned path is under one of the prefixes.
pub under_any : Text → List Text → Bool
under_any path [] = false
under_any path (prefix ∷ rest) =
    text_eq path prefix || has_prefix path (trim_slash prefix ++ b'/' ∷ []) || under_any path rest

pub check_path_allowed : Text → List Text → Result FilesError (Unit {0})
check_path_allowed raw_path [] = ok tt
check_path_allowed raw_path (p ∷ ps) =
    if under_any (clean raw_path) (p ∷ ps) then ok tt else err (path_not_allowed raw_path)

abbrev pub entry : FileInfo → FileEntry
entry info = record {
  name = info.name;
  relative_name = info.relative_name;
  size = info.size;
  is_dir = info.is_dir;
  mode = if info.mode == 0 then none else some info.mode;
}

-- The receiving loop: a message without a name carries metadata; the list is cut off in front of the
-- first entry that is too many.
pub collect_entries : ℕ → Listing → List FileInfo → Option Text → Result FilesError Listing
collect_entries limit kept [] none = ok kept
collect_entries limit kept [] (some e) = err (stream_failed e)
collect_entries limit kept (info ∷ infos) end =
    let noted =
      collect_entries limit
        (record kept { node_errors = note_error info.metadata kept.node_errors }) infos end in
    let added =
      collect_entries limit (record kept { entries = kept.entries ++ entry info ∷ [] }) infos end in
    if is_empty info.name
    then noted
    else if leb limit (length kept.entries)
    then ok (record kept { truncated = true })
    else added

-- `int64(maxBytes)+1` as the limit of io.LimitReader: past the largest number it is negative, and a
-- limit that is not positive reads nothing.
pub read_limit : ℕ → ℕ
read_limit max_bytes = if max_bytes == max_int then 0 else max_bytes + 1

-- io.Copy of io.LimitReader: the reader's error counts only if the limit is not reached before.
pub read_limited : ℕ → Reader → Result FilesError Text
read_limited limit r =
    if leb limit (length r.data_behind)
    then ok (take limit r.data_behind)
    else elim r.failure [ none ↦ ok r.data_behind | some e ↦ err (read_failed e) ]

pub cut : ℕ → Text → Content
cut max_bytes read =
    if ltb max_bytes (length read)
    then record { content = take max_bytes read; truncated = true; max_bytes = max_bytes }
    else record { content = read; truncated = false; max_bytes = max_bytes }

pub max_bytes_or_default : ℕ → ℕ
max_bytes_or_default n = if n == 0 then default_read_max_bytes else n

abbrev wrapped : {E A : Type 0} → (E → FilesError) → Result E A → Result FilesError A
wrapped wrap (ok a) = ok a
wrapped wrap (err e) = err (wrap e)

-- `list` and `read` stand for the calls of the API.
module _ (net : Net) (h : Handlers) where
  pub handle_list_files :
      (List Text → Text → Bool → Result Text (Stream FileInfo))
      → ListFilesArgs
      → Result FilesError Listing
  handle_list_files list args = do
    let path = if is_empty args.path then codes "/" else args.path
    _ ← check_path_allowed path h.allowed_paths
    targets ← wrapped nodes_refused (with_nodes net [] h.allowed_nodes args.nodes)
    stream ← wrapped list_failed (list targets path args.recurse)
    collect_entries max_list_entries (record { entries = []; truncated = false; node_errors = [] })
        stream.messages stream.failure

  pub handle_read_file :
      (List Text → Text → Result Text Reader) → ReadFileArgs → Result FilesError Content
  handle_read_file read args = do
    _ ← check_path_allowed args.path h.allowed_paths
    targets ← wrapped nodes_refused (with_nodes net [] h.allowed_nodes args.nodes)
    let max_bytes = max_bytes_or_default args.max_bytes
    reader ← wrapped open_failed (read targets args.path)
    buf ← read_limited (read_limit max_bytes) reader
    ok (cut max_bytes buf)
