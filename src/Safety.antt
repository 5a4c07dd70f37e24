-- ===== src/Safety.antt =====
-- internal/config/safety_profile.go: the switches that gate the tools that change nodes.
pub mod Profile
mod Tests
use talos_mcp_server.Common.{
  ℕ, zero, suc, ◌+◌, ◌-◌, ◌*◌, ◌/◌, ◌%◌, ◌^◌, ◌≤◌, ◌<◌, ◌≡◌, refl, sym, ap, ◌∙◌, ◌≢◌, ◌↔◌, ◌⊎◌, inl,
  inr, Bool, true, false, not, ◌&&◌, ◌||◌, Option, none, some, List, [], ◌∷◌, ◌++◌, map, append-nil,
  append_assoc, arith, ltb, leb, ◌==◌, if◌then◌else◌, Bool-cases, Option-cases, ◌>>=◌, is_ok,
  Result-cases, Text, codes, length, take, drop, length-append, is_empty, All, All-append, In,
  In-append_left, In-append_right, In-append_cases, Result, ok, err,
}
use talos_mcp_server.Text.{
  text_eq, text_eq_iff, text_eq_refl, has_prefix, after_prefix, trim_prefix, has_prefix-append,
  has_prefix_split, contains_byte, Lacks, contains_byte-Lacks, trim_left, trim_right, trim_space,
  to_lower, to_lower_idem,
}

-- The process environment: os.LookupEnv.
abbrev pub Environment : Type 0
Environment = Text → Option Text

pub record SafetyProfile : Type 0 where
  pub read_only : Bool
  pub allow_cluster_wide : Bool
  pub enable_gen : Bool
  pub skip_version_check : Bool
  pub enable_insecure : Bool
  pub profile : Text
  pub overrides : List Text

abbrev no_flags : Text → SafetyProfile
no_flags name = record {
  read_only = false;
  allow_cluster_wide = false;
  enable_gen = false;
  skip_version_check = false;
  enable_insecure = false;
  profile = name;
  overrides = [];
}

-- os.Getenv: an unset variable reads as the empty text.
unfoldable pub getenv : Environment → Text → Text
getenv environ key = elim (environ key) [ none ↦ [] | some raw ↦ raw ]

-- The switch over the profile's name.
unfoldable pub preset : Text → Result Text SafetyProfile
preset name =
    if is_empty name
    then ok (no_flags (codes "none"))
    else if text_eq name (codes "conservative")
    then ok (record (no_flags (codes "conservative")) { read_only = true })
    else if text_eq name (codes "standard")
    then ok (no_flags (codes "standard"))
    else if text_eq name (codes "expert")
    then ok (record (no_flags (codes "expert")) {
      allow_cluster_wide = true;
      enable_gen = true;
      enable_insecure = true;
    })
    else err name

-- The new value of a flag, and the overrides with its label.
unfoldable pub apply_override : Option Text → Bool → Text → List Text → Bool × List Text
apply_override none target label overrides = (target, overrides)
apply_override (some raw) target label overrides =
    let v = text_eq raw (codes "true") in
    (v, overrides ++ (label ++ codes "=" ++ (if v then codes "true" else codes "false")) ∷ [])

override_all : Environment → SafetyProfile → SafetyProfile
unfolding apply_override
override_all environ p =
    let a =
      apply_override (environ (codes "TALOS_MCP_READ_ONLY")) p.read_only (codes "read_only")
        p.overrides in
    let b =
      apply_override (environ (codes "TALOS_MCP_ALLOW_CLUSTER_WIDE")) p.allow_cluster_wide
        (codes "allow_cluster_wide") a.1 in
    let c =
      apply_override (environ (codes "TALOS_MCP_ENABLE_GEN")) p.enable_gen (codes "enable_gen")
        b.1 in
    let d =
      apply_override (environ (codes "TALOS_MCP_SKIP_VERSION_CHECK")) p.skip_version_check
        (codes "skip_version_check") c.1 in
    let e =
      apply_override (environ (codes "TALOS_MCP_ENABLE_INSECURE")) p.enable_insecure
        (codes "enable_insecure") d.1 in
    record {
      read_only = a.0;
      allow_cluster_wide = b.0;
      enable_gen = c.0;
      skip_version_check = d.0;
      enable_insecure = e.0;
      profile = p.profile;
      overrides = e.1;
    }

unfoldable pub load_safety_profile : Environment → Result Text SafetyProfile
unfolding override_all
load_safety_profile environ =
    elim (preset (to_lower (trim_space (getenv environ (codes "TALOS_MCP_SAFETY_PROFILE"))))) [
      | err name ↦ err name
      | ok p ↦ ok (override_all environ p)
    ]
