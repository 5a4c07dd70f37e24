-- ===== src/Tools/Lifecycle/Reboot/Tests.antt =====
-- A node that goes down at the second probe and is back at the fourth, with another boot ID.
use talos_mcp_server.Common.{
  ℕ, ◌+◌, ◌≤◌, ◌<◌, ◌≡◌, refl, ◌≢◌, ◌⊎◌, true, false, ◌||◌, none, some, List, [], ◌∷◌, arith, leb,
  ◌==◌, if◌then◌else◌, is_ok, Text, codes, All, Result, ok, err,
}
use talos_mcp_server.Text.{text_eq, trim_space}
use talos_mcp_server.Net.Sample.{sample_net}
use talos_mcp_server.Version.{TalosVersion}
use talos_mcp_server.Tools.Effect.{
  History, Sent, Refused, Permitted, RebootMode, Env, reboot, authenticated,
}
use talos_mcp_server.Tools.Samples.{sample_env, sample_handlers}
use talos_mcp_server.Tools.Lifecycle.{or_refuse}
use talos_mcp_server.Nodes.{with_nodes, check_nodes, check_node}
use talos_mcp_server.Common.{
  ℕ, ◌+◌, ◌≤◌, ◌<◌, ◌≡◌, refl, ◌≢◌, ◌⊎◌, true, false, ◌||◌, none, some, List, [], ◌∷◌, arith, leb,
  ◌==◌, if◌then◌else◌, is_ok, Text, codes, All, Result, ok, err,
}
use talos_mcp_server.Tools.Lifecycle.Reboot.{
  Clock, RebootArgs, RebootError, RebootResult, NodeOutcome, rounds, reached, poll, verify,
  read_boot, wait_for_node_reboot, handle_reboot, reboot_mode_of, rebooted, read_boot_ids, wait_all,
  conclude, reboot_and_wait, parse_reboot_timeout, boot_id_of, wait_errors, wait_results,
}
use talos_mcp_server.Tools.Lifecycle.Reboot.Waiting.{Timely, Ends, wait-Ends}
use talos_mcp_server.Tools.Lifecycle.Reboot.Liveness.{probes}
use talos_mcp_server.Tools.Lifecycle.Reboot.Guarded.{Ready, Ready, reboot_guarded}
use talos_mcp_server.Tools.Lifecycle.Reboot.Results.{Reported, reboot_wait_sound}

abbrev sample_clock : Clock
sample_clock = record {
  parse_duration = λ s. ok 10000000000;
  ctx_done = λ past timeout slept. leb timeout slept;
  elapsed = λ past. codes "8s";
}

sample_clock-Timely : Timely sample_clock
sample_clock-Timely past timeout slept l = ground arith

abbrev answer : ℕ → Result Text TalosVersion
answer n =
    if n == 1 || n == 2
    then err (codes "unavailable")
    else ok (record { major = 1; minor = 9; patch = 3 })

abbrev rebooting_env : Env
rebooting_env = record sample_env { version_reply = λ past targets node. answer (probes past) }

abbrev node : Text
node = codes "n1"

abbrev wait_run : NodeOutcome × History
wait_run = wait_for_node_reboot sample_clock rebooting_env 10000000000 node (codes "old") []

wait-Ends_example : Ends wait_run.0
wait-Ends_example =
    wait-Ends sample_clock rebooting_env sample_clock-Timely 10000000000 node (codes "old") []

abbrev done : RebootResult
done = record {
  node = node;
  old_boot_id = codes "old";
  new_boot_id = ok (codes "done");
  duration = codes "8s";
  status = rebooted;
}

wait_ends_well : wait_run.0 ≡ ok done
unfolding wait_for_node_reboot poll reached rounds read_boot verify trim_space text_eq
wait_ends_well = refl

abbrev reboot_args : RebootArgs
reboot_args = record {
  nodes = node ∷ [];
  mode = codes "powercycle";
  confirm = true;
  wait = true;
  timeout = codes "10s";
}

abbrev changing_env : Env
changing_env = record rebooting_env {
  reply = λ past channel c. if probes past == 0 then ok (codes "old") else ok (codes "done");
}

abbrev in_order : List NodeOutcome → List NodeOutcome
in_order os = os

abbrev reboot_run : Result RebootError (List RebootResult) × History
reboot_run =
    handle_reboot in_order sample_net sample_clock changing_env sample_handlers reboot_args []

reboot_guarded_example :
    Refused reboot_run []
    ⊎ ((true ≡ true)
        × (node ∷ [] ≢ [])
        × Permitted sample_net none (node ∷ [])
        × Ready sample_clock changing_env reboot_args
        × (mode : RebootMode) × (reboot_mode_of (codes "powercycle") ≡ some mode)
        × Sent reboot_run [] (authenticated (node ∷ [])) (reboot mode))
reboot_guarded_example =
    reboot_guarded in_order sample_net sample_clock changing_env sample_handlers reboot_args []

reboot_succeeds : reboot_run.0 ≡ ok (done ∷ [])
unfolding with_nodes check_nodes check_node handle_reboot reboot_and_wait or_refuse reboot_mode_of
    text_eq parse_reboot_timeout read_boot_ids read_boot trim_space wait_all wait_for_node_reboot
    poll reached rounds verify boot_id_of conclude wait_errors wait_results
reboot_succeeds = refl

reboot_wait_sound_example :
    (mode : RebootMode) × (reboot_mode_of (codes "powercycle") ≡ some mode)
    × All
        (Reported changing_env [] ((authenticated (node ∷ []), reboot mode) ∷ []) (done ∷ []))
        (node ∷ [])
reboot_wait_sound_example =
    reboot_wait_sound in_order sample_net sample_clock changing_env sample_handlers (λ os o i. i)
      reboot_args [] (done ∷ []) refl reboot_succeeds
