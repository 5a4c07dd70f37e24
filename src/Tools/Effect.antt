-- ===== src/Tools/Effect.antt =====
-- What a handler does besides returning: the events that it leaves in the history, newest first, and
-- the client, the disk and the network, whose answers may depend on the whole history.
pub mod Silent
pub mod Reads
use talos_mcp_server.Common.{
  ℕ, zero, suc, ◌+◌, ◌-◌, ◌*◌, ◌/◌, ◌%◌, ◌^◌, ◌≤◌, ◌<◌, ◌≡◌, refl, sym, ap, ◌∙◌, ◌≢◌, ◌↔◌, ◌⊎◌, inl,
  inr, Bool, true, false, not, ◌&&◌, ◌||◌, Option, none, some, List, [], ◌∷◌, ◌++◌, map, append-nil,
  append_assoc, arith, ltb, leb, ◌==◌, if◌then◌else◌, Bool-cases, if_cases, Option-cases, is_ok,
  Result-cases, Text, codes, length, take, drop, length-append, is_empty, All, All-append, In,
  In-append_left, In-append_right, In-append_cases, Result, ok, err,
}
use talos_mcp_server.Version.{TalosVersion, VersionError}
use talos_mcp_server.Nodes.{NodeAllowlist, NodeError, check_node, with_nodes}
use talos_mcp_server.Blocklist.{BlockError}
use talos_mcp_server.Net.{
  Ip, v4_in_v6_prefix, is_mapped, to4, cidr_mask, and_bytes, mask_ip, network, or_self, number_mask,
  same_masked, contains, byte_at, is_unspecified, is_loopback, is_link_local_unicast, is_multicast,
  Prefix, IpNet, Net,
}
use talos_mcp_server.MetaKey.{KeyError}
use talos_mcp_server.Nodes.Matching.{with_nodes_sound}
use talos_mcp_server.Insecure.{IpError, FingerprintError}

-- The Outcome* constants of internal/tools/helpers.go.
pub data Outcome : Type 0 where
  outcome_ok refused_enable refused_confirm refused_nodes_exclusive : Outcome
  refused_fp_without_insecure refused_endpoint_empty refused_endpoint_invalid : Outcome
  refused_allowlist refused_fingerprint refused_meta_key : Outcome
  dial_error rpc_error refused_args : Outcome

pub data RebootMode : Type 0 where
  default_mode powercycle force : RebootMode

pub data ApplyMode : Type 0 where
  auto reboot_now no_reboot staged try_mode : ApplyMode

pub record UpgradeRequest : Type 0 where
  pub image : Text
  pub preserve : Bool
  pub stage : Bool
  pub force_upgrade : Bool
  pub reboot_mode : RebootMode

pub record ResetRequest : Type 0 where
  pub graceful : Bool
  pub reboot_after : Bool
  pub labels : List Text

pub record ApplyRequest : Type 0 where
  pub config : Text
  pub mode : ApplyMode
  pub dry_run : Bool

-- The calls of the Talos API that the handlers make.
pub data Call : Type 0 where
  service_start service_stop service_restart : Text → Call
  reboot : RebootMode → Call
  upgrade : UpgradeRequest → Call
  rollback : Call
  reset : ResetRequest → Call
  get_machine_config : Call
  apply_configuration : ApplyRequest → Call
  meta_read meta_delete : ℕ → Call
  meta_write : ℕ → Text → Call
  node_version read_boot_id : Text → Call
  version service_list processes : Call
  containers : Text → Call
  -- with the namespace, the type and the ID of a resource
  resolve_kind cosi_list : Text → Text → Call
  cosi_get : Text → Text → Text → Call

-- The connection of a call: mTLS to the nodes that the context targets (none: the default ones), or
-- a maintenance-mode connection to one endpoint.
pub data Channel : Type 0 where
  authenticated : List Text → Channel
  insecure : Text → Option (List ℕ) → Channel

pub data Event : Type 0 where
  audit : Text → Event
  audit_outcome : Text → Outcome → Bool → Event
  progress : Text → ℕ → ℕ → Event
  rpc : Channel → Call → Event
  log_error log_warn : Text → Event
  lock unlock : Text → Event
  dial : Text → Option (List ℕ) → Event
  close : Event
  invalidate_version_cache : Event

abbrev pub History : Type 0
History = List Event

pub data FileError : Type 0 where
  not_absolute not_clean lstat_failed not_regular open_failed read_failed too_large : FileError

pub data ToolError : Type 0 where
  confirm_required nodes_required service_name_required image_required : ToolError
  unknown_action unknown_mode unknown_reboot_mode : Text → ToolError
  node_refused : NodeError → ToolError
  path_refused : VersionError → ToolError
  one_node_only : ℕ → ToolError
  patch_blocked : BlockError → ToolError
  blocklist_active : ToolError
  config_file_refused : FileError → ToolError
  patch_unreadable : Text → ToolError
  patch_failed : Text → ToolError
  rpc_failed dial_failed : Text → ToolError
  fingerprint_without_insecure insecure_disabled nodes_exclusive endpoint_missing : ToolError
  endpoint_invalid : IpError → ToolError
  endpoint_not_allowed : Text → ToolError
  fingerprint_invalid : FingerprintError → ToolError
  meta_key_invalid : KeyError → ToolError
  marshal_failed : Text → ToolError
  meta_key_not_privileged : ℕ → ToolError

-- The resource.Resource of a machine config: what its methods and the marshallers say of it.
pub record ConfigResource : Type 0 where
  pub annotations_empty : Bool
  pub is_protobuf : Bool
  -- the YamlSpec of its protobuf form, and yaml.Marshal of its spec
  pub protobuf_spec : Option Text
  pub yaml_spec : Option Text

-- The answers of what stands outside. They may depend on all that happened before.
pub record Env : Type 0 where
  pub reply : History → Channel → Call → Result Text Text
  -- GetNodeVersion, with the targets of the context and the node
  pub version_reply : History → List Text → Text → Result Text TalosVersion
  pub dial_reply : History → Text → Option (List ℕ) → Result Text (Unit {0})
  -- configpatcher: parsing a patch, and applying it to a config
  pub load_patch : Text → Result Text Text
  pub apply_patch : Text → Text → Result Text Text
  -- the resource that a COSI answer is, and yaml.Unmarshal into a string
  pub config_resource : Text → ConfigResource
  pub yaml_string : Text → Option Text
  -- marshal.Resource of the answer to a read of a META key
  pub marshal_resource : Text → Result Text Text

-- The fields of Handlers that are set once at start-up.
pub record Handlers : Type 0 where
  pub allowed_nodes : Option NodeAllowlist
  pub allowed_paths : List Text
  pub skip_version_check : Bool
  pub blocked_config_paths : List Text
  pub enable_insecure : Bool
  pub insecure_allowed_nodes : Option NodeAllowlist
  pub meta_privileged_keys : List ℕ

-- A step of a handler that fails with an E.
abbrev pub M : Type 0 → Type 0 → Type 0
M E A = History → Result E A × History

abbrev pub continue : {E A B : Type 0} → (A → M E B) → Result E A × History → Result E B × History
continue f (ok a, h) = f a h
continue f (err e, h) = (err e, h)

infixl 5 ◌>>=◌ ◌>>◌
abbrev pub ◌>>=◌ : {E A B : Type 0} → M E A → (A → M E B) → M E B
◌>>=◌ m f h = continue f (m h)

abbrev pub ◌>>◌ : {E B : Type 0} → M E (Unit {0}) → M E B → M E B
◌>>◌ m k = m >>= λ _. k

abbrev pub pure : {E A : Type 0} → A → M E A
pure a h = (ok a, h)

abbrev pub fail : {E A : Type 0} → E → M E A
fail e h = (err e, h)

abbrev pub emit : {E : Type 0} → Event → M E (Unit {0})
emit e h = (ok tt, e ∷ h)

abbrev pub require : {E : Type 0} → Bool → E → M E (Unit {0})
require true e h = (ok tt, h)
require false e h = (err e, h)

abbrev pub lift : {D E A : Type 0} → (D → E) → Result D A → M E A
lift wrap (ok a) h = (ok a, h)
lift wrap (err e) h = (err (wrap e), h)

abbrev pub plain_answer : {E : Type 0} → (Text → E) → Result Text Text → M E Text
plain_answer wrap (ok r) h = (ok r, h)
plain_answer wrap (err e) h = (err (wrap e), h)

-- A failure is forwarded by mcpLogError.
abbrev pub logged_answer : {E : Type 0} → Text → (Text → E) → Result Text Text → M E Text
logged_answer tool wrap (ok r) h = (ok r, h)
logged_answer tool wrap (err e) h = (err (wrap e), log_error tool ∷ h)

abbrev pub call : {E : Type 0} → Env → (Text → E) → Channel → Call → M E Text
call env wrap channel c h = plain_answer wrap (env.reply h channel c) (rpc channel c ∷ h)

abbrev pub call_logged : {E : Type 0} → Env → Text → (Text → E) → Channel → Call → M E Text
call_logged env tool wrap channel c h =
    logged_answer tool wrap (env.reply h channel c) (rpc channel c ∷ h)

-- `defer mu.Unlock()` behind `mu.Lock()`
abbrev pub unlocking : {E A : Type 0} → Text → Result E A × History → Result E A × History
unlocking key (r, h) = (r, unlock key ∷ h)

abbrev pub with_lock : {E A : Type 0} → Text → M E A → M E A
with_lock key m h = unlocking key (m (lock key ∷ h))

-- `defer h.auditOutcome(tool, outcome, finalErr)`: a failure carries the outcome that its exit set.
abbrev pub Refusal : Type 0
Refusal = Outcome × ToolError

abbrev pub finish : {A : Type 0} → Text → Result Refusal A × History → Result ToolError A × History
finish tool (ok a, h) = (ok a, audit_outcome tool outcome_ok false ∷ h)
finish tool (err (o, e), h) = (err e, audit_outcome tool o true ∷ h)

abbrev pub with_outcome : {A : Type 0} → Text → M Refusal A → M ToolError A
with_outcome tool m h = finish tool (m h)

-- A failure is forwarded by mcpLogError.
abbrev pub log_failed : {E A : Type 0} → Text → Result E A × History → Result E A × History
log_failed tool (ok a, h) = (ok a, h)
log_failed tool (err e, h) = (err e, log_error tool ∷ h)

abbrev pub log_failure : {E A : Type 0} → Text → M E A → M E A
log_failure tool m h = log_failed tool (m h)

-- dialInsecure and `defer client.Close()` behind it
abbrev pub dialled : Result Text (Unit {0}) → M Refusal (Unit {0})
dialled (ok u) h = (ok tt, h)
dialled (err e) h = (err (dial_error, dial_failed e), h)

abbrev pub dial_insecure : Env → Text → Option (List ℕ) → M Refusal (Unit {0})
dial_insecure env endpoint fp h = dialled (env.dial_reply h endpoint fp) (dial endpoint fp ∷ h)

abbrev pub closed : {E A : Type 0} → Result E A × History → Result E A × History
closed (r, h) = (r, close ∷ h)

abbrev pub closing : {E A : Type 0} → M E A → M E A
closing m h = closed (m h)

-- The calls that change a node, newest first.
abbrev pub is_mutation : Call → Bool
is_mutation get_machine_config = false
is_mutation (meta_read k) = false
is_mutation (node_version n) = false
is_mutation (read_boot_id n) = false
is_mutation version = false
is_mutation service_list = false
is_mutation processes = false
is_mutation (containers ns) = false
is_mutation (resolve_kind ns t) = false
is_mutation (cosi_list ns t) = false
is_mutation (cosi_get ns t n) = false
is_mutation _ = true

abbrev pub mutation_of : Event → List (Channel × Call)
mutation_of (rpc channel c) = if is_mutation c then (channel, c) ∷ [] else []
mutation_of _ = []

abbrev pub mutations : History → List (Channel × Call)
mutations [] = []
mutations (e ∷ h) = mutation_of e ++ mutations h

-- *bool arguments that default to true
abbrev pub default_true : Option Bool → Bool
default_true none = true
default_true (some b) = b

-- A run made just one mutating call, the given one; or it made none, and failed.
abbrev pub Sent : {E A : Type 0} → Result E A × History → History → Channel → Call → Type 0
Sent (r, after) before channel c = mutations after ≡ (channel, c) ∷ mutations before

abbrev pub Refused : {E A : Type 0} → Result E A × History → History → Type 0
Refused (r, after) before = (mutations after ≡ mutations before) × (is_ok r ≡ false)

abbrev pub Permitted : Net → Option NodeAllowlist → List Text → Type 0
Permitted net allow = All (λ n. check_node net allow n ≡ ok tt)

-- Selecting nodes targets just these, all of them permitted, or fails.
pub with_nodes_cases :
    (net : Net) (allow : Option NodeAllowlist) (nodes : List Text)
    → ((with_nodes net [] allow nodes ≡ ok nodes) × Permitted net allow nodes)
      ⊎ ((e : NodeError) × (with_nodes net [] allow nodes ≡ err e))
with_nodes_cases net allow nodes = elim (Result-cases (with_nodes net [] allow nodes)) [
  | inl (t, p) ↦ inl (targets (with_nodes_sound net [] t allow nodes p) p)
  | inr (e, p) ↦ inr (e, p)
]
  where
    targets :
        {t : List Text}
        → ((nodes ≡ []) × (t ≡ [])) ⊎ ((t ≡ nodes) × Permitted net allow nodes)
        → with_nodes net [] allow nodes ≡ ok t
        → (with_nodes net [] allow nodes ≡ ok nodes) × Permitted net allow nodes
    targets (inl (e, f)) p = (cc, rw e tt)
    targets (inr (e, q)) p = (cc, q)
