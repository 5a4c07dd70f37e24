-- ===== src/Tools/Logs/Bounds.antt =====
-- The lines of `HandleLogs`: the first ones of the stream, as many as were asked for.
use mathlib.Core.Path.{subst}
use talos_mcp_server.Common.{
  ℕ, zero, suc, ◌≤◌, ◌<◌, ◌≡◌, refl, sym, ◌≢◌, ◌⊎◌, inl, inr, false, Option, none, some, List, [],
  ◌∷◌, ◌++◌, append-nil, append_assoc, arith, leb, if◌then◌else◌, if_cases, Text, codes, length,
  take, length-append, is_empty, Result, ok, err,
}
use talos_mcp_server.Common.Lists.{take_all, take-append}
use talos_mcp_server.Net.{Net}
use talos_mcp_server.Nodes.{with_nodes}
use talos_mcp_server.Tools.Effect.{Handlers}
use talos_mcp_server.Tools.Stream.{Stream, note_error}
use talos_mcp_server.Tools.Logs.{
  Data, bytes, metadata, LogsArgs, LogLines, LogsError, stream_failed, default_logs_tail_lines,
  line_limit, trim_newlines, collect_lines, no_lines, handle_logs,
}

-- All the lines that the messages of a stream carry.
pub all_lines : List Data → List Text
all_lines [] = []
all_lines (bytes b ∷ ms) = trim_newlines b ∷ all_lines ms
all_lines (metadata m ∷ ms) = all_lines ms

-- A stream that broke before it had enough lines is an error; any other gives its first lines.
abbrev pub FirstLines : ℕ → List Text → Option Text → Result LogsError LogLines → Type 0
FirstLines tail all end r =
    (((end ≡ none) ⊎ (tail ≤ length all))
      × (out : LogLines) × (r ≡ ok out)
      × (out.lines ≡ take tail all))
    ⊎ ((e : Text) × (end ≡ some e) × (length all < tail) × (r ≡ err (stream_failed e)))

collect_lines-FirstLines :
    (tail : ℕ) (kept : LogLines) (ms : List Data) (end : Option Text)
    → length kept.lines < tail
    → FirstLines tail (kept.lines ++ all_lines ms) end (collect_lines tail kept ms end)
unfolding collect_lines all_lines
collect_lines-FirstLines tail kept [] none l =
    rw (append-nil kept.lines)
      (inl (inl refl, kept, refl, sym (take_all tail kept.lines (omega arith))))
collect_lines-FirstLines tail kept [] (some e) l =
    rw (append-nil kept.lines) (inr (e, refl, l, refl))
collect_lines-FirstLines tail kept (bytes b ∷ ms) end l =
    let line = trim_newlines b in
    let more : LogLines = record kept { lines = kept.lines ++ line ∷ [] } in
    let whole = append_assoc kept.lines (line ∷ []) (all_lines ms) in
    let long = length-append kept.lines (line ∷ []) in
    let all_long = length-append (kept.lines ++ line ∷ []) (all_lines ms) in
    if_cases (FirstLines tail (kept.lines ++ line ∷ all_lines ms) end)
      (leb tail (length (kept.lines ++ line ∷ []))) _ _
      (λ t.
        let full : tail ≡ length more.lines = ground arith in
        subst (λ all. FirstLines tail all end (ok more)) whole
          (inl
            (inr (omega arith), more, refl, sym (take-append more.lines (all_lines ms) tail full))))
      (λ f.
        subst (λ all. FirstLines tail all end (collect_lines tail more ms end)) whole
          (collect_lines-FirstLines tail more ms end (ground arith)))
collect_lines-FirstLines tail kept (metadata m ∷ ms) end l =
    collect_lines-FirstLines tail (record kept { node_errors = note_error m kept.node_errors }) ms
      end l

pub line_limit-pos : (d n : ℕ) → 1 ≤ d → 1 ≤ line_limit d n
unfolding line_limit
line_limit-pos d zero l = l
line_limit-pos d (suc n) l = omega arith

module _ (net : Net) (h : Handlers) where
  -- For a named service, permitted nodes and a stream that opens, the logs are its first lines, as many
  -- as were asked for (100 if the number is not positive); but if the stream breaks before there are
  -- that many, the result is the error of the stream.
  handle_logs-FirstLines :
      (logs : List Text → Text → Text → ℕ → Result Text (Stream Data)) (args : LogsArgs)
      (targets : List Text) (stream : Stream Data)
      → args.service_name ≢ []
      → with_nodes net [] h.allowed_nodes args.nodes ≡ ok targets
      → logs targets
          (if is_empty args.namespace then codes "system" else args.namespace)
          args.service_name
          (line_limit default_logs_tail_lines args.tail_lines)
        ≡ ok stream
      → FirstLines
          (line_limit default_logs_tail_lines args.tail_lines)
          (all_lines stream.messages)
          stream.failure
          (handle_logs net h logs args)
  unfolding handle_logs
  handle_logs-FirstLines logs args targets stream named permitted opens =
      let tail = line_limit default_logs_tail_lines args.tail_lines in
      let name : is_empty args.service_name ≡ false = ground arith in
      rw name (
        rw permitted (
          rw opens (
            collect_lines-FirstLines tail no_lines stream.messages stream.failure
              (line_limit-pos default_logs_tail_lines args.tail_lines (omega arith)))))
