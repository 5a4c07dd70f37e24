-- ===== src/Tools/SecretFile/Tests.antt =====
-- A secret file that is written, and one whose disk is full.
use talos_mcp_server.Common.{◌≡◌, refl, ◌⊎◌, true, false, none, some, Text, codes, err}
use talos_mcp_server.Text.{
  text_eq, text_eq_iff, text_eq_refl, has_prefix, after_prefix, trim_prefix, has_prefix-append,
  has_prefix_split, contains_byte, Lacks, contains_byte-Lacks, trim_left, trim_right, trim_space,
  to_lower, to_lower_idem,
}
use talos_mcp_server.Text.FilePath.{is_abs, clean}
use talos_mcp_server.Tools.SecretFile.{
  FileSystem, Source, Os, SecretFileError, Written, regular, copied, clean_up, fill_file,
  open_exclusive, write_new, write_secret_file, is_some, is_none, write_failed,
}
use talos_mcp_server.Tools.SecretFile.Guarded.{StoredOrSame, write_secret_file_guarded}

abbrev sample_os : Os
sample_os = record {
  lstat_error = λ path. false;
  meanwhile = λ fs. fs;
  open_error = λ path. false;
  room = none;
  sync_error = false;
  close_error = false;
  remove_error = false;
  sha256_hex = λ content. codes "00";
}

abbrev empty_disk : FileSystem
empty_disk path = none

abbrev destination : Text
destination = codes "/tmp/key"

abbrev key : Source
key = record { data_read = codes "secret"; failure = none }

write_secret_file_guarded_example :
    ((e : SecretFileError) × (write_secret_file sample_os destination key empty_disk
        ≡ (err e, empty_disk)))
    ⊎ ((is_abs destination ≡ true)
        × (clean destination ≡ destination)
        × (empty_disk destination ≡ none)
        × StoredOrSame sample_os destination key empty_disk
            (write_secret_file sample_os destination key empty_disk))
write_secret_file_guarded_example =
    write_secret_file_guarded sample_os destination key empty_disk refl

abbrev full_run : Written
full_run = write_secret_file (record sample_os { room = some 3 }) destination key empty_disk

disk_full : (full_run.0 ≡ err write_failed) × (full_run.1 destination ≡ none)
unfolding write_secret_file is_abs clean text_eq talos_mcp_server.Text.Parts.split
    talos_mcp_server.Text.Parts.join write_new open_exclusive is_some fill_file copied clean_up
disk_full = (refl, refl)

stored :
    (write_secret_file sample_os destination key empty_disk).1 destination
    ≡ some (regular 384 (codes "secret"))
unfolding write_secret_file is_abs clean text_eq talos_mcp_server.Text.Parts.split
    talos_mcp_server.Text.Parts.join write_new open_exclusive is_some fill_file copied is_none
stored = refl
