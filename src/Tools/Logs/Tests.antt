-- ===== src/Tools/Logs/Tests.antt =====
-- A stream of logs with an unreachable node and more lines than asked for, and one of kernel messages.
use talos_mcp_server.Common.{◌≡◌, refl, true, none, some, [], ◌∷◌, ◌++◌, leb, codes, ok}
use talos_mcp_server.Net.Sample.{sample_net}
use talos_mcp_server.Tools.Samples.{sample_handlers}
use talos_mcp_server.Tools.Stream.{Stream, note_error}
use talos_mcp_server.Nodes.{with_nodes}
use talos_mcp_server.Tools.Logs.{
  Data, bytes, metadata, LogsArgs, DmesgArgs, handle_logs, handle_dmesg, line_limit, collect_lines,
  trim_newlines,
}
use talos_mcp_server.Tools.Logs.Ring.{visible_lines, LastLines, handle_dmesg-LastLines}

abbrev log_stream : Stream Data
log_stream = record {
  messages =
      bytes (codes "one" ++ 10 ∷ [])
      ∷ metadata (some ([], codes "unreachable"))
      ∷ bytes (codes "two")
      ∷ bytes (codes "three")
      ∷ [];
  failure = some (codes "broken");
}

abbrev logs_args : LogsArgs
logs_args = record { service_name = codes "kubelet"; tail_lines = 2; namespace = []; nodes = [] }

untargeted : with_nodes sample_net [] none [] ≡ ok []
unfolding with_nodes
untargeted = refl

logs_stop :
    handle_logs sample_net sample_handlers (λ targets ns name tail. ok log_stream) logs_args
    ≡ ok (record {
      lines = codes "one" ∷ codes "two" ∷ [];
      node_errors = (codes "unknown", codes "unreachable") ∷ [];
    })
unfolding handle_logs with_nodes line_limit collect_lines trim_newlines note_error
logs_stop = refl

abbrev kernel_stream : Stream Data
kernel_stream = record {
  messages = bytes (codes "a" ++ 10 ∷ 10 ∷ codes "b" ++ 10 ∷ codes "c") ∷ bytes (codes "d") ∷ [];
  failure = none;
}

abbrev dmesg_args : DmesgArgs
dmesg_args = record { max_lines = 2; nodes = [] }

has_room : leb (line_limit 200 2) 1000 ≡ true
unfolding line_limit
has_room = refl

handle_dmesg-LastLines_example :
    LastLines (line_limit 200 2) (visible_lines kernel_stream.messages) none (
      handle_dmesg sample_net sample_handlers
        (λ n. leb n 1000)
        (λ targets. ok kernel_stream)
        dmesg_args)
handle_dmesg-LastLines_example =
    handle_dmesg-LastLines sample_net sample_handlers (λ n. leb n 1000)
      (λ targets. ok kernel_stream) dmesg_args [] kernel_stream untargeted refl has_room
