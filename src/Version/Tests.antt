-- ===== src/Version/Tests.antt =====
-- Versions and upgrades on concrete values.
use talos_mcp_server.Common.{◌+◌, ◌≤◌, ◌≡◌, refl, ◌↔◌, ◌∷◌, ◌++◌, arith, codes, ok, err}
use talos_mcp_server.Version.{
  TalosVersion, skips_minor, parse, extract_from_image, string, parse_parts, less, equal,
  validate_upgrade_path,
}
use talos_mcp_server.Version.Order.{Before, validate_upgrade_path_iff, Upgrades, here, next}
use talos_mcp_server.Version.RoundTrip.{extract_from_image-string}
use talos_mcp_server.Text.Number.{max_int}

abbrev v1_9_3 : TalosVersion
v1_9_3 = record { major = 1; minor = 9; patch = 3 }

abbrev v1_10_0 : TalosVersion
v1_10_0 = record { major = 1; minor = 10; patch = 0 }

abbrev v1_11_2 : TalosVersion
v1_11_2 = record { major = 1; minor = 11; patch = 2 }

read_suffix : parse (codes "v1.10.0-alpha.1") ≡ ok v1_10_0
unfolding parse parse_parts talos_mcp_server.Text.after_prefix talos_mcp_server.Text.Parts.split
    talos_mcp_server.Text.Parts.before_byte talos_mcp_server.Text.Number.atoi
read_suffix = refl

skip_refused : validate_upgrade_path v1_9_3 v1_11_2 ≡ err (skips_minor 1)
unfolding validate_upgrade_path less equal
skip_refused = refl

two-Upgrades : Upgrades 2 v1_9_3 v1_11_2
unfolding validate_upgrade_path less equal
two-Upgrades = next {v = v1_10_0} (next (here v1_9_3) refl) refl

validate_upgrade_path_iff_example :
    (validate_upgrade_path v1_9_3 v1_10_0 ≡ ok tt)
    ↔ ((v1_10_0.major ≡ v1_9_3.major) × Before v1_9_3 v1_10_0 × (v1_10_0.minor ≤ v1_9_3.minor + 1))
validate_upgrade_path_iff_example = validate_upgrade_path_iff v1_9_3 v1_10_0

small : (v1_9_3.major ≤ max_int) × (v1_9_3.minor ≤ max_int) × (v1_9_3.patch ≤ max_int)
small = (omega arith, omega arith, omega arith)

extract_from_image-string_example :
    extract_from_image (codes "ghcr.io/siderolabs/installer" ++ b':' ∷ string v1_9_3) ≡ ok v1_9_3
extract_from_image-string_example =
    extract_from_image-string (codes "ghcr.io/siderolabs/installer") v1_9_3 small
