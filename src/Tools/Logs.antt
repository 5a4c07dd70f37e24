-- ===== src/Tools/Logs.antt =====
-- `HandleLogs` and `HandleDmesg` of internal/tools/logs.go. Lines are kept as they come in; the text
-- form of a result, which joins them, is left out. A negative count of lines counts as 0.
pub mod Bounds
pub mod Ring
pub mod Tests
use talos_mcp_server.Common.{
  ℕ, zero, suc, ◌+◌, ◌-◌, ◌*◌, ◌/◌, ◌%◌, ◌^◌, ◌≤◌, ◌<◌, ◌≡◌, refl, sym, ap, ◌∙◌, ◌≢◌, ◌↔◌, ◌⊎◌, inl,
  inr, Bool, true, false, not, ◌&&◌, ◌||◌, Option, none, some, List, [], ◌∷◌, ◌++◌, map, append-nil,
  append_assoc, arith, ltb, leb, ◌==◌, if◌then◌else◌, Bool-cases, if_cases, Option-cases, ◌>>=◌,
  is_ok, Result-cases, Text, codes, length, take, drop, length-append, is_empty, All, All-append,
  In, In-append_left, In-append_right, In-append_cases, Result, ok, err,
}
use talos_mcp_server.Text.{
  text_eq, text_eq_iff, text_eq_refl, has_prefix, after_prefix, trim_prefix, has_prefix-append,
  has_prefix_split, contains_byte, Lacks, contains_byte-Lacks, trim_left, trim_right, trim_space,
  to_lower, to_lower_idem,
}
use talos_mcp_server.Text.Parts.{split}
use talos_mcp_server.Net.{
  Ip, v4_in_v6_prefix, is_mapped, to4, cidr_mask, and_bytes, mask_ip, network, or_self, number_mask,
  same_masked, contains, byte_at, is_unspecified, is_loopback, is_link_local_unicast, is_multicast,
  Prefix, IpNet, Net,
}
use talos_mcp_server.Nodes.{NodeError, with_nodes}
use talos_mcp_server.Tools.Effect.{Handlers}
use talos_mcp_server.Tools.Stream.{Stream, NodeErrors, note_error}

-- A message of common.Data: bytes, or metadata with a hostname and an error.
pub data Data : Type 0 where
  bytes : Text → Data
  metadata : Option (Text × Text) → Data

pub record LogsArgs : Type 0 where
  pub service_name : Text
  pub tail_lines : ℕ
  pub namespace : Text
  pub nodes : List Text

pub record DmesgArgs : Type 0 where
  pub max_lines : ℕ
  pub nodes : List Text

pub record LogLines : Type 0 where
  pub lines : List Text
  pub node_errors : NodeErrors

pub data LogsError : Type 0 where
  service_name_missing : LogsError
  nodes_refused : NodeError → LogsError
  logs_failed stream_failed : Text → LogsError
  -- the panic of a buffer that cannot be allocated
  allocation_panics : LogsError

abbrev pub default_logs_tail_lines : ℕ
default_logs_tail_lines = 100

abbrev pub default_dmesg_max_lines : ℕ
default_dmesg_max_lines = 200

pub line_limit : ℕ → ℕ → ℕ
line_limit d zero = d
line_limit d (suc n) = suc n

-- strings.TrimRight(s, "\n")
pub trim_newlines : Text → Text
trim_newlines [] = []
trim_newlines (c ∷ s) = elim (trim_newlines s) [
  | [] ↦ if c == 10 then [] else c ∷ []
  | d ∷ t ↦ c ∷ d ∷ t
]

-- The receiving loop of logs: it ends early, and well, once there are enough lines.
pub collect_lines : ℕ → LogLines → List Data → Option Text → Result LogsError LogLines
collect_lines tail kept [] none = ok kept
collect_lines tail kept [] (some e) = err (stream_failed e)
collect_lines tail kept (bytes b ∷ ms) end =
    let lines = kept.lines ++ trim_newlines b ∷ [] in
    let more = record kept { lines = lines } in
    let rest = collect_lines tail more ms end in if leb tail (length lines) then ok more else rest
collect_lines tail kept (metadata m ∷ ms) end =
    collect_lines tail (record kept { node_errors = note_error m kept.node_errors }) ms end

-- `copy(lines, lines[1:])`: the last element stays.
pub shift_left : List Text → List Text
shift_left [] = []
shift_left (x ∷ []) = x ∷ []
shift_left (x ∷ y ∷ xs) = y ∷ shift_left (y ∷ xs)

-- `lines[i] = line`
pub set_at : ℕ → Text → List Text → List Text
set_at i line [] = []
set_at zero line (x ∷ xs) = line ∷ xs
set_at (suc i) line (x ∷ xs) = x ∷ set_at i line xs

-- A line enters the buffer, in which at most `max` lines are kept.
pub push_line : ℕ → List Text → Text → List Text
push_line max lines [] = lines
push_line max lines (c ∷ line) =
    if ltb (length lines) max
    then lines ++ (c ∷ line) ∷ []
    else set_at (max - 1) (c ∷ line) (shift_left lines)

pub push_lines : ℕ → List Text → List Text → List Text
push_lines max lines [] = lines
push_lines max lines (l ∷ ls) = push_lines max (push_line max lines l) ls

-- The receiving loop of dmesg.
pub collect_ring : ℕ → LogLines → List Data → Option Text → Result LogsError LogLines
collect_ring max kept [] none = ok kept
collect_ring max kept [] (some e) = err (stream_failed e)
collect_ring max kept (bytes b ∷ ms) end =
    collect_ring max
      (record kept { lines = push_lines max kept.lines (split (trim_newlines b) 10) }) ms end
collect_ring max kept (metadata m ∷ ms) end =
    collect_ring max (record kept { node_errors = note_error m kept.node_errors }) ms end

abbrev pub no_lines : LogLines
no_lines = record { lines = []; node_errors = [] }

-- The stream that a call of the API opens, or its error.
abbrev opened : Result Text (Stream Data) → Result LogsError (Stream Data)
opened (ok s) = ok s
opened (err e) = err (logs_failed e)

abbrev targeted : Result NodeError (List Text) → Result LogsError (List Text)
targeted (ok t) = ok t
targeted (err e) = err (nodes_refused e)

abbrev allocated : Bool → Result LogsError (Unit {0})
allocated true = ok tt
allocated false = err allocation_panics

-- `logs` and `dmesg` stand for the calls of the API: the first gets the targets, the namespace, the
-- service and the number of lines.
module _ (net : Net) (h : Handlers) where
  pub handle_logs :
      (List Text → Text → Text → ℕ → Result Text (Stream Data))
      → LogsArgs
      → Result LogsError LogLines
  handle_logs logs args = if is_empty args.service_name then err service_name_missing else (do
    targets ← targeted (with_nodes net [] h.allowed_nodes args.nodes)
    let tail = line_limit default_logs_tail_lines args.tail_lines
    stream ← opened (
        logs targets (if is_empty args.namespace then codes "system" else args.namespace)
          args.service_name tail)
    collect_lines tail no_lines stream.messages stream.failure)

  -- `fits` tells of a capacity whether `make` can allocate a buffer for it.
  pub handle_dmesg :
      (ℕ → Bool) → (List Text → Result Text (Stream Data)) → DmesgArgs → Result LogsError LogLines
  handle_dmesg fits dmesg args = do
    targets ← targeted (with_nodes net [] h.allowed_nodes args.nodes)
    let max_lines = line_limit default_dmesg_max_lines args.max_lines
    stream ← opened (dmesg targets)
    _ ← allocated (fits max_lines)
    collect_ring max_lines no_lines stream.messages stream.failure
