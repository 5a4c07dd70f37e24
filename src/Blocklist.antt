-- ===== src/Blocklist.antt =====
-- internal/tools/patch_blocklist.go: the guard on the config paths that a patch touches.
-- Decoding the patch document (encoding/json, yaml) is the interface `Decoder`. A decoded map is the
-- list of its fields in the order in which the loop visits them.
pub mod Paths
pub mod Pointer
pub mod Guard
mod Tests
use talos_mcp_server.Common.{
  ℕ, zero, suc, ◌+◌, ◌-◌, ◌*◌, ◌/◌, ◌%◌, ◌^◌, ◌≤◌, ◌<◌, ◌≡◌, refl, sym, ap, ◌∙◌, ◌≢◌, ◌↔◌, ◌⊎◌, inl,
  inr, Bool, true, false, not, ◌&&◌, ◌||◌, Option, none, some, List, [], ◌∷◌, ◌++◌, map, append-nil,
  append_assoc, arith, ltb, leb, ◌==◌, if◌then◌else◌, Bool-cases, Option-cases, ◌>>=◌, is_ok,
  Result-cases, Text, codes, length, take, drop, length-append, is_empty, All, All-append, In,
  In-append_left, In-append_right, In-append_cases, Result, ok, err,
}
use talos_mcp_server.Text.{
  text_eq, text_eq_iff, text_eq_refl, has_prefix, after_prefix, trim_prefix, has_prefix-append,
  has_prefix_split, contains_byte, Lacks, contains_byte-Lacks, trim_left, trim_right, trim_space,
  to_lower, to_lower_idem,
}
use talos_mcp_server.Text.Parts.{split, join, replace_all}

-- A value of a strategic merge patch; what is no map is a leaf.
mutual
  pub data Value : Type 0 where
    leaf : Value
    object : Fields → Value

  pub data Fields : Type 0 where
    end : Fields
    field : Text → Value → Fields → Fields

-- An operation of an RFC 6902 patch.
pub record PatchOp : Type 0 where
  pub op : Text
  pub path : Text
  pub from : Text

pub record Decoder : Type 0 where
  -- json.Unmarshal into a slice of operations
  pub json_ops : Text → Option (List PatchOp)
  -- yaml.Unmarshal into a map
  pub yaml_map : Text → Option Fields

pub data BlockError : Type 0 where
  unreadable root_document : BlockError
  blocked_path : Text → Text → BlockError

pub path_conflicts : Text → Text → Bool
path_conflicts p b = text_eq p b || has_prefix p (b ++ b'.' ∷ []) || has_prefix b (p ++ b'.' ∷ [])

pub unescape : Text → Text
unescape p = replace_all b'~' b'0' b'~' (replace_all b'~' b'1' b'/' p)

pub normalise_json_pointer : Text → Text
unfolding unescape
normalise_json_pointer ptr = join (map unescape (split (trim_prefix ptr (codes "/")) b'/')) b'.'

pub full_path : Text → Text → Text
full_path prefix k = if not (is_empty prefix) then prefix ++ b'.' ∷ k else k

mutual
  unfolding full_path

  -- The paths of one value at its full path.
  pub value_paths : Text → Value → List Text
  value_paths full leaf = full ∷ []
  value_paths full (object end) = full ∷ []
  value_paths full (object (field k v m)) = value_paths (full_path full k) v ++ collect_paths full m

  pub collect_paths : Text → Fields → List Text
  collect_paths prefix end = []
  collect_paths prefix (field k v m) = value_paths (full_path prefix k) v ++ collect_paths prefix m

-- A move or a copy that names its source.
pub moves : PatchOp → Bool
moves o = (text_eq o.op (codes "move") || text_eq o.op (codes "copy")) && not (is_empty o.from)

pub source_paths : PatchOp → List Text
source_paths o = if moves o then normalise_json_pointer o.from ∷ [] else []

pub op_paths : List PatchOp → List Text
op_paths [] = []
op_paths (o ∷ os) = normalise_json_pointer o.path ∷ (source_paths o ++ op_paths os)

-- The first blocked path that a path conflicts with.
pub check_path : Text → List Text → Result BlockError (Unit {0})
check_path p [] = ok tt
check_path p (b ∷ bs) =
    let rest = check_path p bs in if path_conflicts p b then err (blocked_path p b) else rest

pub check_paths : List Text → List Text → Result BlockError (Unit {0})
unfolding check_path
check_paths [] blocked = ok tt
check_paths (p ∷ ps) blocked =
    let rest = check_paths ps blocked in
    if is_empty p then err root_document else do _ ← check_path p blocked; rest

module _ (d : Decoder) where
  yaml_paths : Option Fields → Result BlockError (List Text)
  yaml_paths none = err unreadable
  yaml_paths (some m) = ok (collect_paths [] m)

  pub extract_patch_paths : Text → Result BlockError (List Text)
  unfolding yaml_paths
  extract_patch_paths doc = elim (d.json_ops doc) [
    | none ↦ yaml_paths (d.yaml_map doc)
    | some ops ↦ if not (is_empty ops) then ok (op_paths ops) else yaml_paths (d.yaml_map doc)
  ]

  pub check_blocked_paths : Text → List Text → Result BlockError (Unit {0})
  check_blocked_paths doc blocked =
      if is_empty blocked
      then ok tt
      else do paths ← extract_patch_paths doc; check_paths paths blocked
