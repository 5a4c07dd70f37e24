-- ===== src/Tools/SecretFile.antt =====
-- internal/tools/secret_file.go: `WriteSecretFile`, on a file system that is passed along. A path names
-- a file by its text: links in the directories above are not followed.
pub mod Guarded
pub mod Tests
use talos_mcp_server.Common.{
  ℕ, zero, suc, ◌+◌, ◌-◌, ◌*◌, ◌/◌, ◌%◌, ◌^◌, ◌≤◌, ◌<◌, ◌≡◌, refl, sym, ap, ◌∙◌, ◌≢◌, ◌↔◌, ◌⊎◌, inl,
  inr, Bool, true, false, not, ◌&&◌, ◌||◌, Option, none, some, List, [], ◌∷◌, ◌++◌, map, append-nil,
  append_assoc, arith, ltb, leb, ◌==◌, if◌then◌else◌, Bool-cases, if_cases, Option-cases, ◌>>=◌,
  is_ok, Result-cases, Text, codes, length, take, drop, length-append, is_empty, All, All-append,
  In, In-append_left, In-append_right, In-append_cases, Result, ok, err,
}
use talos_mcp_server.Text.{
  text_eq, text_eq_iff, text_eq_refl, has_prefix, after_prefix, trim_prefix, has_prefix-append,
  has_prefix_split, contains_byte, Lacks, contains_byte-Lacks, trim_left, trim_right, trim_space,
  to_lower, to_lower_idem,
}
use talos_mcp_server.Text.FilePath.{is_abs, clean}

pub data FileNode : Type 0 where
  -- its permission bits and its content
  regular : ℕ → Text → FileNode
  symlink : Text → FileNode
  other_node : FileNode

abbrev pub FileSystem : Type 0
FileSystem = Text → Option FileNode

abbrev pub set : Text → Option FileNode → FileSystem → FileSystem
set path node fs q = if text_eq q path then node else fs q

-- The data of an io.Reader, and the error behind them, if there is one.
pub record Source : Type 0 where
  pub data_read : Text
  pub failure : Option Text

-- What the operating system answers, and what others do to the files between the Lstat and the open.
pub record Os : Type 0 where
  pub lstat_error : Text → Bool
  pub meanwhile : FileSystem → FileSystem
  pub open_error : Text → Bool
  -- how many bytes the disk takes, if it does not take all
  pub room : Option ℕ
  pub sync_error : Bool
  pub close_error : Bool
  pub remove_error : Bool
  -- hex.EncodeToString of the sha256 sum
  pub sha256_hex : Text → Text

pub record SecretFileResult : Type 0 where
  pub path : Text
  pub bytes : ℕ
  pub sha256 : Text

pub data SecretFileError : Type 0 where
  path_missing path_not_absolute path_not_clean : SecretFileError
  through_symlink already_exists lstat_failed open_failed : SecretFileError
  write_failed sync_failed close_failed : SecretFileError

pub is_some : Option FileNode → Bool
is_some none = false
is_some (some node) = true

pub is_none : Option Text → Bool
is_none none = true
is_none (some e) = false

-- io.Copy: what reaches the file, and whether it is all.
pub copied : Option ℕ → Source → Text × Bool
copied none src = (src.data_read, is_none src.failure)
copied (some n) src =
    if leb (length src.data_read) n
    then (src.data_read, is_none src.failure)
    else (take n src.data_read, false)

abbrev pub Written : Type 0
Written = Result SecretFileError SecretFileResult × FileSystem

-- os.Remove, whose error is ignored.
pub clean_up : Os → Text → FileSystem → FileSystem
clean_up os path fs = if os.remove_error then fs else set path none fs

-- From the creation of the file with mode 0600 on.
pub fill_file : Os → Text → Text × Bool → FileSystem → Written
fill_file os path (content, whole) fs =
    let written = set path (some (regular 384 content)) fs in
    if not whole
    then (err write_failed, clean_up os path written)
    else if os.sync_error
    then (err sync_failed, clean_up os path written)
    else if os.close_error
    then (err close_failed, clean_up os path written)
    else (
      ok (record { path = path; bytes = length content; sha256 = os.sha256_hex content }),
      written,
    )

-- os.OpenFile with O_CREATE, O_EXCL and O_WRONLY.
pub open_exclusive : Os → Text → Source → FileSystem → Written
open_exclusive os path src fs =
    if is_some (fs path) || os.open_error path
    then (err open_failed, fs)
    else fill_file os path (copied os.room src) fs

-- On what Lstat found.
pub write_new : Os → Text → Source → Option FileNode → FileSystem → Written
write_new os path src (some (symlink to)) fs = (err through_symlink, fs)
write_new os path src (some (regular mode content)) fs = (err already_exists, fs)
write_new os path src (some other_node) fs = (err already_exists, fs)
write_new os path src none fs = open_exclusive os path src (os.meanwhile fs)

pub write_secret_file : Os → Text → Source → FileSystem → Written
write_secret_file os path src fs =
    if is_empty path
    then (err path_missing, fs)
    else if not (is_abs path)
    then (err path_not_absolute, fs)
    else if not (text_eq (clean path) path)
    then (err path_not_clean, fs)
    else if os.lstat_error path
    then (err lstat_failed, fs)
    else write_new os path src (fs path) fs
