-- ===== src/Startup.antt =====
-- The start of cmd/talos-mcp/main.go: the environment becomes the handlers' configuration, or the
-- server does not start. (What is only logged is left out.)
pub mod Gates
pub mod Confined
pub mod Sample
pub mod Tests
use talos_mcp_server.Common.{
  ℕ, zero, suc, ◌+◌, ◌-◌, ◌*◌, ◌/◌, ◌%◌, ◌^◌, ◌≤◌, ◌<◌, ◌≡◌, refl, sym, ap, ◌∙◌, ◌≢◌, ◌↔◌, ◌⊎◌, inl,
  inr, Bool, true, false, not, ◌&&◌, ◌||◌, Option, none, some, List, [], ◌∷◌, ◌++◌, map, append-nil,
  append_assoc, arith, ltb, leb, ◌==◌, if◌then◌else◌, Bool-cases, if_cases, Option-cases, ◌>>=◌,
  is_ok, Result-cases, Text, codes, length, take, drop, length-append, is_empty, All, All-append,
  In, In-append_left, In-append_right, In-append_cases, Result, ok, err,
}
use talos_mcp_server.Text.{
  text_eq, text_eq_iff, text_eq_refl, has_prefix, after_prefix, trim_prefix, has_prefix-append,
  has_prefix_split, contains_byte, Lacks, contains_byte-Lacks, trim_left, trim_right, trim_space,
  to_lower, to_lower_idem,
}
use talos_mcp_server.Text.Parts.{split}
use talos_mcp_server.Text.Number.{atoi}
use talos_mcp_server.Net.{
  Ip, v4_in_v6_prefix, is_mapped, to4, cidr_mask, and_bytes, mask_ip, network, or_self, number_mask,
  same_masked, contains, byte_at, is_unspecified, is_loopback, is_link_local_unicast, is_multicast,
  Prefix, IpNet, Net,
}
use talos_mcp_server.Nodes.{NodeAllowlist, NodeError, parse_node_allowlist, len}
use talos_mcp_server.Insecure.{CeilingError, check_insecure_allowlist}
use talos_mcp_server.MetaKey.{KeyError, parse_meta_privileged_keys}
use talos_mcp_server.Safety.{Environment, SafetyProfile, getenv, load_safety_profile}
use talos_mcp_server.Tools.Effect.{Handlers}
use talos_mcp_server.Tools.Files.{parse_allowed_paths}

-- The exits of log.Fatalf.
pub data StartError : Type 0 where
  unknown_profile : Text → StartError
  invalid_allowed_nodes invalid_insecure_nodes : NodeError → StartError
  insecure_nodes_refused : CeilingError → StartError
  no_insecure_entries auth_token_missing : StartError
  invalid_meta_keys : KeyError → StartError
  no_client invalid_subscription_rate invalid_subscription_burst : Text → StartError

pub record Server : Type 0 where
  pub handlers : Handlers
  pub read_only : Bool
  pub http_addr : Text
  pub auth_token : Text
  -- in nanoseconds
  pub subscription_rate : ℕ
  pub subscription_burst : ℕ

trimmed_entries : List Text → List Text
trimmed_entries [] = []
trimmed_entries (p ∷ ps) =
    let rest = trimmed_entries ps in if is_empty (trim_space p) then rest else trim_space p ∷ rest

pub split_non_empty : Text → ℕ → List Text
unfolding trimmed_entries
split_non_empty [] sep = []
split_non_empty (c ∷ s) sep = trimmed_entries (split (c ∷ s) sep)

pub validate_http_config : Text → Text → Result StartError (Unit {0})
validate_http_config addr token =
    if not (is_empty addr) && is_empty token then err auth_token_missing else ok tt

abbrev pub wrapped : {E A : Type 0} → (E → StartError) → Result E A → Result StartError A
wrapped wrap (ok a) = ok a
wrapped wrap (err e) = err (wrap e)

-- A number or a duration that is present must be positive. (A negative one counts as 0 or does not parse.)
pub positive_or :
    {E : Type 0} → ℕ → (Text → StartError) → (Text → Result E ℕ) → Text → Result StartError ℕ
positive_or default wrap parse [] = ok default
positive_or default wrap parse (c ∷ s) = elim (parse (c ∷ s)) [
  | err e ↦ err (wrap (c ∷ s))
  | ok zero ↦ err (wrap (c ∷ s))
  | ok (suc n) ↦ ok (suc n)
]

atoi_result : Text → Result (Unit {0}) ℕ
atoi_result s = elim (atoi s) [ none ↦ err tt | some n ↦ ok n ]

-- `parse_duration` is time.ParseDuration, in nanoseconds.
pub parse_subscription_limits : (Text → Result Text ℕ) → Text → Text → Result StartError (ℕ × ℕ)
unfolding atoi_result
parse_subscription_limits parse_duration rate burst = do
  r ← positive_or 1000000000 invalid_subscription_rate parse_duration rate
  b ← positive_or 3 invalid_subscription_burst atoi_result burst
  ok (r, b)

module _ (net : Net) where
  -- The allowlist of maintenance mode, which must have entries if the mode is on.
  pub insecure_allowlist : Bool → Text → Result StartError (Option NodeAllowlist)
  insecure_allowlist false raw = ok none
  insecure_allowlist true raw = do
    _ ← wrapped insecure_nodes_refused (check_insecure_allowlist net raw)
    a ← wrapped invalid_insecure_nodes (parse_node_allowlist net raw)
    if len a == 0 then err no_insecure_entries else ok a

  -- `new_client` is what talos.NewClient returns.
  pub start :
      (Text → Result Text ℕ) → Result Text (Unit {0}) → Environment → Result StartError Server
  start parse_duration new_client environ = do
    safety ← wrapped unknown_profile (load_safety_profile environ)
    allowed ←
        wrapped invalid_allowed_nodes
          (parse_node_allowlist net (getenv environ (codes "TALOS_MCP_ALLOWED_NODES")))
    insecure_allowed ←
        insecure_allowlist safety.enable_insecure
          (getenv environ (codes "TALOS_MCP_INSECURE_ALLOWED_NODES"))
    keys ←
        wrapped invalid_meta_keys
          (parse_meta_privileged_keys (getenv environ (codes "TALOS_MCP_META_PRIVILEGED_KEYS")))
    _ ←
        validate_http_config (getenv environ (codes "TALOS_MCP_HTTP_ADDR"))
          (getenv environ (codes "TALOS_MCP_AUTH_TOKEN"))
    _ ← wrapped no_client new_client
    limits ←
        parse_subscription_limits parse_duration
          (getenv environ (codes "TALOS_MCP_SUBSCRIPTION_RATE"))
          (getenv environ (codes "TALOS_MCP_SUBSCRIPTION_BURST"))
    ok (record {
      handlers = record {
        allowed_nodes = allowed;
        allowed_paths = parse_allowed_paths (getenv environ (codes "TALOS_MCP_ALLOWED_PATHS"));
        skip_version_check = safety.skip_version_check;
        blocked_config_paths =
            split_non_empty (getenv environ (codes "TALOS_MCP_BLOCKED_CONFIG_PATHS")) b',';
        enable_insecure = safety.enable_insecure;
        insecure_allowed_nodes = insecure_allowed;
        meta_privileged_keys = keys;
      };
      read_only = safety.read_only;
      http_addr = getenv environ (codes "TALOS_MCP_HTTP_ADDR");
      auth_token = getenv environ (codes "TALOS_MCP_AUTH_TOKEN");
      subscription_rate = limits.0;
      subscription_burst = limits.1;
    })
