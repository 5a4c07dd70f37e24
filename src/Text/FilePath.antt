-- ===== src/Text/FilePath.antt =====
-- filepath.IsAbs and filepath.Clean on Unix: a path is cleaned by walking its elements with a stack.
pub mod Rooted
use talos_mcp_server.Common.{
  ℕ, zero, suc, ◌+◌, ◌-◌, ◌*◌, ◌/◌, ◌%◌, ◌^◌, ◌≤◌, ◌<◌, ◌≡◌, refl, sym, ap, ◌∙◌, ◌≢◌, ◌↔◌, ◌⊎◌, inl,
  inr, Bool, true, false, not, ◌&&◌, ◌||◌, Option, none, some, List, [], ◌∷◌, ◌++◌, map, append-nil,
  append_assoc, arith, ltb, leb, ◌==◌, if◌then◌else◌, Bool-cases, if_cases, Option-cases, ◌>>=◌,
  is_ok, Result-cases, Text, codes, length, take, drop, length-append, is_empty, All, All-append,
  In, In-append_left, In-append_right, In-append_cases, Result, ok, err,
}
use talos_mcp_server.Text.{
  text_eq, text_eq_iff, text_eq_refl, has_prefix, after_prefix, trim_prefix, has_prefix-append,
  has_prefix_split, contains_byte, Lacks, contains_byte-Lacks, trim_left, trim_right, trim_space,
  to_lower, to_lower_idem,
}
use talos_mcp_server.Text.Parts.{split, join}

unfoldable pub is_abs : Text → Bool
is_abs [] = false
is_abs (c ∷ s) = c == b'/'

-- An element of a path and the elements kept so far, the last one first. Behind the root `..` is
-- dropped; elsewhere it cancels an element, or is kept if there is none to cancel.
abbrev back : Bool → List Text → List Text
back rooted [] = if rooted then [] else codes ".." ∷ []
back rooted (e ∷ stack) = if text_eq e (codes "..") then codes ".." ∷ e ∷ stack else stack

clean_element : Bool → List Text → Text → List Text
clean_element rooted stack e =
    if is_empty e || text_eq e (codes ".")
    then stack
    else if text_eq e (codes "..")
    then back rooted stack
    else e ∷ stack

clean_elements : Bool → List Text → List Text → List Text
unfolding clean_element
clean_elements rooted stack [] = stack
clean_elements rooted stack (e ∷ es) = clean_elements rooted (clean_element rooted stack e) es

reversed : List Text → List Text → List Text
reversed [] out = out
reversed (e ∷ es) out = reversed es (e ∷ out)

unfoldable pub clean : Text → Text
unfolding is_abs clean_elements reversed
clean path =
    let kept = reversed (clean_elements (is_abs path) [] (split path b'/')) [] in
    if is_abs path
    then b'/' ∷ join kept b'/'
    else if is_empty kept
    then codes "."
    else join kept b'/'

cleans :
    (clean (codes "/etc/../var//log/.") ≡ codes "/var/log")
    × (clean (codes "/../..") ≡ codes "/")
    × (clean (codes "a/../../b") ≡ codes "../b")
    × (clean [] ≡ codes ".")
unfolding clean text_eq split join
cleans = (refl, refl, refl, refl)
