-- ===== src/Safety/Tests.antt =====
-- The expert profile with one override.
use talos_mcp_server.Common.{◌≡◌, refl, true, false, none, some, [], ◌∷◌, if◌then◌else◌, codes, ok}
use talos_mcp_server.Text.{text_eq, trim_space, to_lower}
use talos_mcp_server.Safety.{Environment, SafetyProfile, getenv, preset, load_safety_profile}

abbrev environ : Environment
environ key =
    if text_eq key (codes "TALOS_MCP_SAFETY_PROFILE")
    then some (codes "Expert")
    else if text_eq key (codes "TALOS_MCP_ENABLE_GEN")
    then some (codes "1")
    else none

abbrev loaded : SafetyProfile
loaded = record {
  read_only = false;
  allow_cluster_wide = true;
  enable_gen = false;
  skip_version_check = false;
  enable_insecure = true;
  profile = codes "expert";
  overrides = codes "enable_gen=false" ∷ [];
}

environ-loaded : load_safety_profile environ ≡ ok loaded
unfolding load_safety_profile preset to_lower trim_space getenv text_eq
environ-loaded = refl
