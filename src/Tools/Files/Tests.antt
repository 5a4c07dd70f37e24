-- ===== src/Tools/Files/Tests.antt =====
-- Reads and a listing behind a path allowlist.
use talos_mcp_server.Common.{
  ℕ, ◌≡◌, refl, true, false, none, List, [], ◌∷◌, arith, Text, codes, All, Result, ok,
}
use talos_mcp_server.Text.{text_eq, has_prefix, trim_space}
use talos_mcp_server.Text.Parts.{split, join}
use talos_mcp_server.Text.FilePath.{is_abs, clean}
use talos_mcp_server.Text.FilePath.Rooted.{EntryName}
use talos_mcp_server.Net.Sample.{sample_net}
use talos_mcp_server.Nodes.{with_nodes}
use talos_mcp_server.Tools.Effect.{Handlers}
use talos_mcp_server.Tools.Samples.{sample_handlers}
use talos_mcp_server.Tools.Stream.{Stream}
use talos_mcp_server.Tools.Files.{
  FileInfo, Reader, ListFilesArgs, ReadFileArgs, parse_allowed_paths, trim_slash, under_any,
  check_path_allowed, handle_read_file, read_limit, read_limited, cut, max_bytes_or_default,
}
use talos_mcp_server.Tools.Files.Bounds.{ReadsPrefix, handle_read_file-ReadsPrefix}
use talos_mcp_server.Tools.Files.Allowed.{Asked, UnderAny, read_file_allowed}

abbrev allowed : List Text
allowed = codes "/etc" ∷ codes "/proc" ∷ []

parses : parse_allowed_paths (codes " /etc/ ,, /x/../proc") ≡ allowed
unfolding parse_allowed_paths split trim_space clean is_abs join text_eq
parses = refl

abbrev fenced : Handlers
fenced = record sample_handlers { allowed_paths = allowed }

abbrev reader : Reader
reader = record { data_behind = codes "NAME=Talos"; failure = none }

abbrev read : List Text → Text → Result Text Reader
read targets path = ok reader

abbrev read_args : ℕ → ReadFileArgs
read_args n = record { path = codes "/etc/os-release"; max_bytes = n; nodes = [] }

path_passes : check_path_allowed (codes "/etc/os-release") allowed ≡ ok tt
unfolding check_path_allowed under_any trim_slash clean is_abs split join text_eq has_prefix
path_passes = refl

untargeted : with_nodes sample_net [] none [] ≡ ok []
unfolding with_nodes
untargeted = refl

handle_read_file-ReadsPrefix_example :
    ReadsPrefix
      (max_bytes_or_default 4)
      reader
      (handle_read_file sample_net fenced read (read_args 4))
handle_read_file-ReadsPrefix_example =
    handle_read_file-ReadsPrefix sample_net fenced read (read_args 4) [] reader path_passes
      untargeted refl (omega arith)

reads :
    handle_read_file sample_net fenced read (read_args 4)
    ≡ ok (record { content = codes "NAME"; truncated = true; max_bytes = 4 })
unfolding handle_read_file with_nodes read_limit read_limited cut max_bytes_or_default
    check_path_allowed under_any trim_slash clean is_abs split join text_eq has_prefix
reads = refl

read_file_allowed_example :
    Asked sample_net fenced read (read_args 4)
    × UnderAny allowed (clean (codes "/etc/os-release"))
    × (es : List Text) × (clean (codes "/etc/os-release") ≡ b'/' ∷ join es b'/')
    × All EntryName es
read_file_allowed_example =
    read_file_allowed sample_net fenced read (read_args 4)
      (record { content = codes "NAME"; truncated = true; max_bytes = 4 }) (λ e. cc) rooted reads
  where
    rooted : is_abs (codes "/etc/os-release") ≡ true
    rooted = unfold is_abs in refl

abbrev entries : Stream FileInfo
entries = record {
  messages =
      record {
        name = codes "hosts";
        relative_name = codes "hosts";
        size = 12;
        is_dir = false;
        mode = 420;
        metadata = none;
      }
      ∷ [];
  failure = none;
}

abbrev list_args : ListFilesArgs
list_args = record { path = codes "/etc/os-release"; recurse = false; nodes = [] }
