-- ===== src/Tools/Health.antt =====
-- HandleHealth of internal/tools/system.go, HandleEvents of internal/tools/logs.go and HandleValidate of
-- internal/tools/validate.go. The deadlines of their contexts are part of what the API answers.
pub mod Sound
pub mod Tests
use talos_mcp_server.Common.{
  ℕ, zero, suc, ◌+◌, ◌-◌, ◌*◌, ◌/◌, ◌%◌, ◌^◌, ◌≤◌, ◌<◌, ◌≡◌, refl, sym, ap, ◌∙◌, ◌≢◌, ◌↔◌, ◌⊎◌, inl,
  inr, Bool, true, false, not, ◌&&◌, ◌||◌, Option, none, some, List, [], ◌∷◌, ◌++◌, map, append-nil,
  append_assoc, arith, ltb, leb, ◌==◌, if◌then◌else◌, Bool-cases, if_cases, Option-cases, ◌>>=◌,
  is_ok, Result-cases, Text, codes, length, take, drop, length-append, is_empty, All, All-append,
  In, In-append_left, In-append_right, In-append_cases, Result, ok, err,
}
use talos_mcp_server.Text.{
  text_eq, text_eq_iff, text_eq_refl, has_prefix, after_prefix, trim_prefix, has_prefix-append,
  has_prefix_split, contains_byte, Lacks, contains_byte-Lacks, trim_left, trim_right, trim_space,
  to_lower, to_lower_idem,
}
use talos_mcp_server.Net.{
  Ip, v4_in_v6_prefix, is_mapped, to4, cidr_mask, and_bytes, mask_ip, network, or_self, number_mask,
  same_masked, contains, byte_at, is_unspecified, is_loopback, is_link_local_unicast, is_multicast,
  Prefix, IpNet, Net,
}
use talos_mcp_server.Nodes.{NodeError, with_nodes, check_nodes}
use talos_mcp_server.Tools.Effect.{Handlers}
use talos_mcp_server.Tools.Stream.{Stream}

pub record HealthArgs : Type 0 where
  pub wait_timeout : Text
  pub nodes : List Text
  pub control_plane_nodes : List Text
  pub worker_nodes : List Text

pub data HealthError : Type 0 where
  control_plane_refused workers_refused nodes_refused : NodeError → HealthError
  invalid_timeout : Text → HealthError
  check_failed : Text → HealthError
  health_failed : Text → HealthError

-- What the client sees: the messages of the result, and the progress notifications on the way.
pub record Health : Type 0 where
  pub messages : List Text
  pub progress : List (Text × ℕ)

-- The receiving loop, with the number of messages so far.
pub receive : ℕ → List Text → List Text × List (Text × ℕ)
receive i [] = ([], [])
receive i (m ∷ ms) =
    let (messages, progress) = receive (i + 1) ms in
    if is_empty m
    then (messages, (codes "checking cluster health", i + 1) ∷ progress)
    else (m ∷ messages, (m, i + 1) ∷ progress)

-- A stream that ends with an error is a failed check, however many messages came before.
pub health_result : Stream Text → Result HealthError Health
unfolding receive
health_result s = elim s.failure [
  | some e ↦ err (health_failed e)
  | none ↦
      let (messages, progress) = receive 0 s.messages in
      ok (record { messages = messages; progress = progress })
]

abbrev pub refused_as : {D E A : Type 0} → (D → E) → Result D A → Result E A
refused_as wrap (ok a) = ok a
refused_as wrap (err e) = err (wrap e)

-- `parse_duration` is time.ParseDuration, and `default` two minutes.
pub wait_timeout_of : {D : Type 0} → (Text → Result Text D) → D → Text → Result HealthError D
wait_timeout_of parse_duration default [] = ok default
wait_timeout_of parse_duration default (c ∷ s) = refused_as invalid_timeout (parse_duration (c ∷ s))

module _ (net : Net) (h : Handlers) where
  -- `check` stands for ClusterHealthCheck: the targets, the time to wait, and the nodes of the cluster.
  pub handle_health :
      {D : Type 0}
      → (Text → Result Text D)
      → D
      → (List Text → D → List Text → List Text → Result Text (Stream Text))
      → HealthArgs
      → Result HealthError Health
  unfolding wait_timeout_of
  handle_health parse_duration default check args = do
    _ ← refused_as control_plane_refused (check_nodes net h.allowed_nodes args.control_plane_nodes)
    _ ← refused_as workers_refused (check_nodes net h.allowed_nodes args.worker_nodes)
    targets ← refused_as nodes_refused (with_nodes net [] h.allowed_nodes args.nodes)
    wait ← wait_timeout_of parse_duration default args.wait_timeout
    stream ← refused_as check_failed (check targets wait args.control_plane_nodes args.worker_nodes)
    health_result stream

-- How EventsWatch ends: well, at the deadline or by cancellation, or with another error.
pub data WatchEnd : Type 0 where
  finished deadline_exceeded canceled : WatchEnd
  watch_error : Text → WatchEnd

pub data EventsError : Type 0 where
  events_nodes_refused : NodeError → EventsError
  watch_failed : Text → EventsError

pub record EventsResult : Type 0 where
  pub count : ℕ
  pub events : List Text

abbrev pub default_events_tail_count : ℕ
default_events_tail_count = 50

-- The number of past events; zero selects the default. The argument is an int32, here its value, which
-- may be -1 for all.
pub tail_count : {C : Type 0} → (C → Bool) → C → C → C
tail_count is_zero default count = if is_zero count then default else count

pub events_result : List Text × WatchEnd → Result EventsError EventsResult
events_result (events, watch_error e) = err (watch_failed e)
events_result (events, _) = ok (record { count = length events; events = events })

module _ {C : Type 0} (net : Net) (h : Handlers) where
  -- `watch` stands for EventsWatch: the entries that it hands over until it ends.
  pub handle_events :
      (C → Bool)
      → C
      → (List Text → C → List Text × WatchEnd)
      → C
      → List Text
      → Result EventsError EventsResult
  unfolding tail_count events_result
  handle_events is_zero default watch count nodes = do
    targets ← refused_as events_nodes_refused (with_nodes net [] h.allowed_nodes nodes)
    events_result (watch targets (tail_count is_zero default count))

pub record ValidateArgs : Type 0 where
  pub config : Text
  pub mode : Text
  pub strict : Bool

pub record ValidateMode : Type 0 where
  pub name : Text
  pub requires_install : Bool
  pub in_container : Bool

pub data ValidateError : Type 0 where
  config_missing : ValidateError
  unknown_validate_mode : Text → ValidateError
  config_unreadable : Text → ValidateError

pub record ValidateResult : Type 0 where
  pub valid : Bool
  pub mode : Text
  pub strict : Bool
  pub warnings : List Text
  pub errors : List Text

pub parse_validate_mode : Text → Result ValidateError ValidateMode
parse_validate_mode mode =
    if is_empty mode || text_eq mode (codes "metal")
    then ok (record { name = codes "metal"; requires_install = true; in_container = false })
    else if text_eq mode (codes "cloud")
    then ok (record { name = codes "cloud"; requires_install = false; in_container = false })
    else if text_eq mode (codes "container")
    then ok (record { name = codes "container"; requires_install = false; in_container = true })
    else err (unknown_validate_mode mode)

pub validated : ValidateMode → Bool → List Text × Option Text → ValidateResult
validated mode strict (warnings, none) = record {
  valid = true;
  mode = mode.name;
  strict = strict;
  warnings = warnings;
  errors = [];
}
validated mode strict (warnings, some e) = record {
  valid = false;
  mode = mode.name;
  strict = strict;
  warnings = warnings;
  errors = e ∷ [];
}

-- `load` and `validate` are configloader.NewFromBytes and the Validate method of what it loads: the
-- warnings, and the error.
pub handle_validate :
    {C : Type 0}
    → (Text → Result Text C)
    → (C → ValidateMode → Bool → List Text × Option Text)
    → ValidateArgs
    → Result ValidateError ValidateResult
unfolding parse_validate_mode validated
handle_validate load validate args = if is_empty args.config then err config_missing else (do
  mode ← parse_validate_mode args.mode
  cfg ← refused_as config_unreadable (load args.config)
  ok (validated mode args.strict (validate cfg mode args.strict)))
