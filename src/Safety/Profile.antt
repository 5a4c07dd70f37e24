-- ===== src/Safety/Profile.antt =====
-- How a preset and the variables of their own make the flags.
use talos_mcp_server.Common.{
  ◌≡◌, refl, sym, ap, ◌∙◌, inl, inr, Bool, true, false, none, some, List, [], ◌∷◌, arith,
  Option-cases, Result-cases, Text, codes, ok,
}
use talos_mcp_server.Text.{text_eq, text_eq_iff, trim_space, to_lower}
use talos_mcp_server.Safety.{
  Environment, SafetyProfile, getenv, preset, apply_override, override_all, load_safety_profile,
}

-- The variable's value if it is set, and otherwise the preset.
unfoldable pub effective : Environment → Text → Bool → Bool
effective environ key default = elim (environ key) [
  | none ↦ default
  | some raw ↦ text_eq raw (codes "true")
]

pub is_expert : Text → Bool
is_expert name = text_eq name (codes "expert")

apply_override-effective :
    (environ : Environment) (key : Text) (target : Bool) (label : Text) (overrides : List Text)
    → (apply_override (environ key) target label overrides).0 ≡ effective environ key target
unfolding apply_override effective
apply_override-effective environ key target label overrides = elim (Option-cases (environ key)) [
  | inl e ↦ rw (e, apply_override, effective) refl
  | inr (raw, e) ↦ rw (e, apply_override, effective) refl
]

conservative_only :
    (name : Text) → text_eq name (codes "conservative") ≡ true → is_expert name ≡ false
unfolding is_expert text_eq
conservative_only name e = ap is_expert ((text_eq_iff name (codes "conservative")).0 e)

standard_only : (name : Text) → text_eq name (codes "standard") ≡ true → is_expert name ≡ false
unfolding is_expert text_eq
standard_only name e = ap is_expert ((text_eq_iff name (codes "standard")).0 e)

preset_flags :
    (name : Text) (p : SafetyProfile)
    → preset name ≡ ok p
    → (p.read_only ≡ text_eq name (codes "conservative"))
      × (p.allow_cluster_wide ≡ is_expert name)
      × (p.enable_gen ≡ is_expert name)
      × (p.skip_version_check ≡ false)
      × (p.enable_insecure ≡ is_expert name)
unfolding preset is_expert
preset_flags [] p h = unfold text_eq in ground arith
preset_flags (c ∷ s) p h = ground (arith, conservative_only (c ∷ s), standard_only (c ∷ s))

-- The name of the preset, as the server reads it.
pub profile_name : Environment → Text
profile_name environ = to_lower (trim_space (getenv environ (codes "TALOS_MCP_SAFETY_PROFILE")))

-- Each flag of an accepted environment is its own variable's value if that is set, and otherwise the
-- preset: only the conservative one is read-only, only the expert one opens cluster-wide tools,
-- secret generation and maintenance mode, and none skips the version check.
pub load_safety_profile-effective :
    (environ : Environment) (p : SafetyProfile)
    → load_safety_profile environ ≡ ok p
    → (p.read_only
        ≡ effective environ
            (codes "TALOS_MCP_READ_ONLY")
            (text_eq (profile_name environ) (codes "conservative")))
      × (p.allow_cluster_wide
          ≡ effective environ
              (codes "TALOS_MCP_ALLOW_CLUSTER_WIDE")
              (is_expert (profile_name environ)))
      × (p.enable_gen
          ≡ effective environ (codes "TALOS_MCP_ENABLE_GEN") (is_expert (profile_name environ)))
      × (p.skip_version_check ≡ effective environ (codes "TALOS_MCP_SKIP_VERSION_CHECK") false)
      × (p.enable_insecure
          ≡ effective environ
              (codes "TALOS_MCP_ENABLE_INSECURE")
              (is_expert (profile_name environ)))
unfolding load_safety_profile override_all profile_name
load_safety_profile-effective environ p h = elim (Result-cases (preset (profile_name environ))) [
  | inr (e, q) ↦ absurd (ground arith)
  | inl (base, q) ↦
      let (a, b, c, d, e) = preset_flags (profile_name environ) base q in
      let over = λ (key : Text) (target : Bool) (label : Text) (os : List Text).
        apply_override-effective environ key target label os in
      let same : p ≡ override_all environ base = ground arith in
      rw (same, ← a, ← b, ← d)
        (
          over _ _ _ _,
          over _ _ _ _,
          over _ _ _ _ ∙ ap (effective environ (codes "TALOS_MCP_ENABLE_GEN")) (c ∙ sym b),
          over _ _ _ _,
          over _ _ _ _ ∙ ap (effective environ (codes "TALOS_MCP_ENABLE_INSECURE")) (e ∙ sym b),
        )
]
