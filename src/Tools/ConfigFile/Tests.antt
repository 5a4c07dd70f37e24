-- ===== src/Tools/ConfigFile/Tests.antt =====
-- A config file that is read.
use talos_mcp_server.Common.{◌≡◌, refl, true, some, Text, codes, ok}
use talos_mcp_server.Text.{
  text_eq, text_eq_iff, text_eq_refl, has_prefix, after_prefix, trim_prefix, has_prefix-append,
  has_prefix_split, contains_byte, Lacks, contains_byte-Lacks, trim_left, trim_right, trim_space,
  to_lower, to_lower_idem,
}
use talos_mcp_server.Text.FilePath.{is_abs, clean}
use talos_mcp_server.Tools.ConfigFile.{Disk, read_open, read_config_file}

abbrev config_path : Text
config_path = codes "/etc/talos/worker.yaml"

abbrev disk : Disk
disk = record { lstat = λ path. some true; open_file = λ path. some (some (codes "machine: {}")) }

config_read : read_config_file disk config_path ≡ ok (codes "machine: {}")
unfolding read_config_file is_abs text_eq clean talos_mcp_server.Text.Parts.join
    talos_mcp_server.Text.Parts.split read_open
config_read = refl
