-- ===== src/Version.antt =====
-- internal/version/version.go: Talos version tags and the upgrade rules.
-- A Go int is a number here: `parse` cuts its text at the first minus sign, so no field that it reads
-- is negative, and the constants are not.
pub mod Order
pub mod RoundTrip
mod Tests
use talos_mcp_server.Common.{
  ℕ, zero, suc, ◌+◌, ◌-◌, ◌*◌, ◌/◌, ◌%◌, ◌^◌, ◌≤◌, ◌<◌, ◌≡◌, refl, sym, ap, ◌∙◌, ◌≢◌, ◌↔◌, ◌⊎◌, inl,
  inr, Bool, true, false, not, ◌&&◌, ◌||◌, Option, none, some, List, [], ◌∷◌, ◌++◌, map, append-nil,
  append_assoc, arith, ltb, leb, ◌==◌, if◌then◌else◌, Bool-cases, if_cases, Option-cases, ◌>>=◌,
  is_ok, Result-cases, Text, codes, length, take, drop, length-append, is_empty, All, All-append,
  In, In-append_left, In-append_right, In-append_cases, Result, ok, err,
}
use talos_mcp_server.Text.{
  text_eq, text_eq_iff, text_eq_refl, has_prefix, after_prefix, trim_prefix, has_prefix-append,
  has_prefix_split, contains_byte, Lacks, contains_byte-Lacks, trim_left, trim_right, trim_space,
  to_lower, to_lower_idem,
}
use talos_mcp_server.Text.Parts.{split, before_byte, after_last}
use talos_mcp_server.Text.Number.{atoi, decimal}

pub record TalosVersion : Type 0 where
  pub major : ℕ
  pub minor : ℕ
  pub patch : ℕ

abbrev pub min_supported : TalosVersion
min_supported = record { major = 1; minor = 9; patch = 0 }

abbrev pub max_tested : TalosVersion
max_tested = record { major = 1; minor = 13; patch = 255 }

pub data VersionError : Type 0 where
  no_leading_v wrong_part_count invalid_major invalid_minor invalid_patch no_tag : VersionError
  cross_major not_newer : VersionError
  skips_minor : ℕ → VersionError

abbrev or_fail : Option ℕ → VersionError → Result VersionError ℕ
or_fail none e = err e
or_fail (some n) e = ok n

-- `len(parts) != 3`, then one Atoi for each part
parse_parts : List Text → Result VersionError TalosVersion
parse_parts (a ∷ b ∷ c ∷ []) = do
  major ← or_fail (atoi a) invalid_major
  minor ← or_fail (atoi b) invalid_minor
  patch ← or_fail (atoi c) invalid_patch
  ok (record { major = major; minor = minor; patch = patch })
parse_parts _ = err wrong_part_count

unfoldable pub parse : Text → Result VersionError TalosVersion
unfolding parse_parts
parse tag = elim (after_prefix tag (codes "v")) [
  | none ↦ err no_leading_v
  | some core ↦ parse_parts (split (before_byte core b'-') b'.')
]

parse_tag : Option Text → Result VersionError TalosVersion
unfolding parse
parse_tag none = err no_tag
parse_tag (some []) = err no_tag
parse_tag (some (c ∷ tag)) = parse (c ∷ tag)

-- The tag is the text behind the last colon.
pub extract_from_image : Text → Result VersionError TalosVersion
unfolding parse_tag
extract_from_image image = parse_tag (after_last image b':')

pub string : TalosVersion → Text
string v = b'v' ∷ decimal v.major ++ b'.' ∷ (decimal v.minor ++ b'.' ∷ decimal v.patch)

unfoldable pub less : TalosVersion → TalosVersion → Bool
less v other =
    if not (v.major == other.major)
    then ltb v.major other.major
    else if not (v.minor == other.minor)
    then ltb v.minor other.minor
    else ltb v.patch other.patch

unfoldable pub equal : TalosVersion → TalosVersion → Bool
equal v other = v.major == other.major && v.minor == other.minor && v.patch == other.patch

pub in_supported_range : TalosVersion → Bool
unfolding less
in_supported_range v = not (less v min_supported) && not (less max_tested v)

-- The difference of the minors is not negative where it is computed.
unfoldable pub validate_upgrade_path : TalosVersion → TalosVersion → Result VersionError (Unit {0})
unfolding less equal
validate_upgrade_path current target =
    if not (target.major == current.major)
    then err cross_major
    else if less target current || equal target current
    then err not_newer
    else if ltb 1 (target.minor - current.minor)
    then err (skips_minor (target.minor - current.minor - 1))
    else ok tt
