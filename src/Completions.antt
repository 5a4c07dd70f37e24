-- ===== src/Completions.antt =====
-- internal/completions: the suggestions for the arguments of prompts and of resource templates.
pub mod Sound
mod Tests
use talos_mcp_server.Common.{
  ℕ, zero, suc, ◌+◌, ◌-◌, ◌*◌, ◌/◌, ◌%◌, ◌^◌, ◌≤◌, ◌<◌, ◌≡◌, refl, sym, ap, ◌∙◌, ◌≢◌, ◌↔◌, ◌⊎◌, inl,
  inr, Bool, true, false, not, ◌&&◌, ◌||◌, Option, none, some, List, [], ◌∷◌, ◌++◌, map, append-nil,
  append_assoc, arith, ltb, leb, ◌==◌, if◌then◌else◌, Bool-cases, if_cases, Option-cases, ◌>>=◌,
  is_ok, Result-cases, Text, codes, length, take, drop, length-append, is_empty, All, All-append,
  In, In-append_left, In-append_right, In-append_cases, Result, ok, err,
}
use talos_mcp_server.Text.{
  text_eq, text_eq_iff, text_eq_refl, has_prefix, after_prefix, trim_prefix, has_prefix-append,
  has_prefix_split, contains_byte, Lacks, contains_byte-Lacks, trim_left, trim_right, trim_space,
  to_lower, to_lower_idem,
}
use talos_mcp_server.Nodes.{NodeAllowlist}
use talos_mcp_server.Nodes.Exact.{exact_entries}

pub record Reference : Type 0 where
  pub reference_type : Text
  pub name : Text
  pub uri : Text

pub record CompleteRequest : Type 0 where
  pub reference : Option Reference
  pub argument_name : Text
  pub argument_value : Text

abbrev pub known_services : List Text
known_services =
    codes "apid"
    ∷ codes "containerd"
    ∷ codes "cri"
    ∷ codes "etcd"
    ∷ codes "kubelet"
    ∷ codes "machined"
    ∷ codes "trustd"
    ∷ codes "udevd"
    ∷ []

abbrev pub apply_modes : List Text
apply_modes = codes "auto" ∷ codes "no_reboot" ∷ codes "reboot" ∷ codes "staged" ∷ codes "try" ∷ []

abbrev pub common_namespaces : List Text
common_namespaces =
    codes "cluster"
    ∷ codes "config"
    ∷ codes "cri"
    ∷ codes "files"
    ∷ codes "hardware"
    ∷ codes "k8s"
    ∷ codes "network"
    ∷ codes "runtime"
    ∷ codes "time"
    ∷ codes "v1alpha1"
    ∷ []

-- A nil slice is `none`.
unfoldable pub for_prompt : Text → Text → Option NodeAllowlist → Option (List Text)
for_prompt prompt arg nodes =
    if text_eq prompt (codes "diagnose-node") || text_eq prompt (codes "investigate-etcd")
    then (if text_eq arg (codes "node") then exact_entries nodes else none)
    else if text_eq prompt (codes "debug-service")
    then (if text_eq arg (codes "node")
        then exact_entries nodes
        else if text_eq arg (codes "service")
        then some known_services
        else none)
    else if text_eq prompt (codes "pre-upgrade-checklist")
    then (if text_eq arg (codes "nodes") then exact_entries nodes else none)
    else if text_eq prompt (codes "apply-config")
    then (if text_eq arg (codes "node")
        then exact_entries nodes
        else if text_eq arg (codes "mode")
        then some apply_modes
        else none)
    else none

unfoldable pub for_resource : Text → Text → Option NodeAllowlist → Option (List Text)
for_resource uri arg nodes =
    if not (has_prefix uri (codes "talos://"))
    then none
    else if text_eq arg (codes "node")
    then exact_entries nodes
    else if text_eq arg (codes "namespace")
    then some common_namespaces
    else none

unfoldable pub keep_prefix : List Text → Text → List Text
keep_prefix [] p = []
keep_prefix (c ∷ cs) p =
    let rest = keep_prefix cs p in if has_prefix (to_lower c) p then c ∷ rest else rest

-- The elements of a slice; none of a nil slice.
abbrev pub elements : Option (List Text) → List Text
elements none = []
elements (some xs) = xs

unfoldable pub filter_prefix : Option (List Text) → Text → Option (List Text)
filter_prefix cands partial =
    if is_empty partial then cands else some (keep_prefix (elements cands) (to_lower partial))

unfoldable pub candidates : Option NodeAllowlist → Reference → Text → Option (List Text)
candidates nodes ref name =
    if text_eq ref.reference_type (codes "ref/prompt")
    then for_prompt ref.name name nodes
    else if text_eq ref.reference_type (codes "ref/resource")
    then for_resource ref.uri name nodes
    else none

-- NewHandler: the values of the result, empty and never nil where there are none.
unfoldable pub complete : Option NodeAllowlist → CompleteRequest → List Text
unfolding filter_prefix
complete nodes req = elim req.reference [
  | none ↦ []
  | some ref ↦ elements (filter_prefix (candidates nodes ref req.argument_name) req.argument_value)
]
