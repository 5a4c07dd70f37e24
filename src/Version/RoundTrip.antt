-- ===== src/Version/RoundTrip.antt =====
-- Versions read back from their print, alone and as the tag of an image.
use talos_mcp_server.Common.{
  ℕ, ◌≤◌, ◌<◌, ◌≡◌, sym, ◌≢◌, ◌⊎◌, inl, inr, List, [], ◌∷◌, ◌++◌, arith, Text, All-append, ok,
}
use talos_mcp_server.Text.{after_prefix, Lacks}
use talos_mcp_server.Text.Parts.{
  split, join, split-join, before_byte, before_byte-Lacks, before_byte-append, after_last-append,
}
use talos_mcp_server.Text.Number.{decimal, max_int, atoi-decimal, decimal-IsDigit, IsDigit-Lacks}
use talos_mcp_server.Version.{TalosVersion, parse, parse_parts, extract_from_image, string}

-- What stands behind the leading v.
core : TalosVersion → Text
core v = decimal v.major ++ b'.' ∷ (decimal v.minor ++ b'.' ∷ decimal v.patch)

parts : TalosVersion → List Text
parts v = decimal v.major ∷ decimal v.minor ∷ decimal v.patch ∷ []

core-Lacks : (v : TalosVersion) (b : ℕ) → b ≢ b'.' → (b < b'0') ⊎ (b'9' < b) → Lacks b (core v)
unfolding core
core-Lacks v b ne h =
    let field = λ (n : ℕ). IsDigit-Lacks b (decimal n) h (decimal-IsDigit n) in
    let dot : b'.' ≢ b = λ e. ne (sym e) in
    All-append (λ c. c ≢ b) (decimal v.major) (b'.' ∷ (decimal v.minor ++ b'.' ∷ decimal v.patch))
      (field v.major)
      (
        dot,
        All-append (λ c. c ≢ b) (decimal v.minor) (b'.' ∷ decimal v.patch) (field v.minor)
            (dot, field v.patch),
      )

split-core : (v : TalosVersion) → split (core v) b'.' ≡ parts v
unfolding core parts join
split-core v =
    let field = λ (n : ℕ). IsDigit-Lacks b'.' (decimal n) (inl (omega arith)) (decimal-IsDigit n) in
    split-join (decimal v.major) (decimal v.minor ∷ decimal v.patch ∷ []) b'.'
      (field v.major, (field v.minor, (field v.patch, tt)))

parse_parts-parts :
    (v : TalosVersion)
    → (v.major ≤ max_int) × (v.minor ≤ max_int) × (v.patch ≤ max_int)
    → parse_parts (parts v) ≡ ok v
unfolding parse_parts parts
parse_parts-parts v h =
    rw (atoi-decimal v.major h.0, atoi-decimal v.minor h.1, atoi-decimal v.patch h.2)

parse-core :
    (v : TalosVersion) (c : Text)
    → (v.major ≤ max_int) × (v.minor ≤ max_int) × (v.patch ≤ max_int)
    → before_byte c b'-' ≡ core v
    → parse (b'v' ∷ c) ≡ ok v
unfolding parse after_prefix
parse-core v c h e = rw (e, split-core v) (parse_parts-parts v h)

no_dash : (v : TalosVersion) → Lacks b'-' (core v)
no_dash v = core-Lacks v b'-' (omega arith) (inl (omega arith))

-- A version whose fields fit an int is read back from its print, also behind a pre-release suffix.
parse-string :
    (v : TalosVersion) (suffix : Text)
    → (v.major ≤ max_int) × (v.minor ≤ max_int) × (v.patch ≤ max_int)
    → (parse (string v) ≡ ok v) × (parse (string v ++ b'-' ∷ suffix) ≡ ok v)
unfolding string core
parse-string v suffix h = (
  parse-core v (core v) h (before_byte-Lacks (core v) b'-' (no_dash v)),
  parse-core v (core v ++ b'-' ∷ suffix) h (before_byte-append (core v) suffix b'-' (no_dash v)),
)

-- The version is found behind the last colon of an image reference, whatever the repository.
pub extract_from_image-string :
    (repository : Text) (v : TalosVersion)
    → (v.major ≤ max_int) × (v.minor ≤ max_int) × (v.patch ≤ max_int)
    → extract_from_image (repository ++ b':' ∷ string v) ≡ ok v
unfolding extract_from_image string core
extract_from_image-string repository v h =
    let no_colon : Lacks b':' (string v) =
      (omega arith, core-Lacks v b':' (omega arith) (inr (omega arith))) in
    rw (after_last-append repository (string v) b':' no_colon) (parse-string v [] h).0
