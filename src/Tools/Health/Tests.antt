-- ===== src/Tools/Health/Tests.antt =====
-- A health check whose stream has three messages, one of them empty.
use talos_mcp_server.Common.{
  ℕ, ◌≡◌, refl, true, none, some, [], ◌∷◌, ◌==◌, Text, codes, Result, ok, err,
}
use talos_mcp_server.Net.Sample.{sample_net}
use talos_mcp_server.Tools.Effect.{Permitted}
use talos_mcp_server.Tools.Samples.{sample_handlers}
use talos_mcp_server.Tools.Stream.{Stream}
use talos_mcp_server.Nodes.{check_nodes, with_nodes}
use talos_mcp_server.Tools.Health.{
  HealthArgs, HealthError, Health, handle_health, health_result, wait_timeout_of, health_failed,
  handle_validate, handle_events, deadline_exceeded,
}
use talos_mcp_server.Tools.Health.Sound.{spoken, announced, handle_health_sound}

abbrev stream : Stream Text
stream = record { messages = codes "etcd" ∷ [] ∷ codes "ok" ∷ []; failure = none }

abbrev args : HealthArgs
args = record {
  wait_timeout = [];
  nodes = codes "n1" ∷ [];
  control_plane_nodes = codes "n1" ∷ [];
  worker_nodes = [];
}

abbrev duration : Text → Result Text ℕ
duration s = err s

abbrev run : Stream Text → Result HealthError Health
run s = handle_health sample_net sample_handlers duration 120 (λ targets wait cps ws. ok s) args

abbrev healthy : Health
healthy = record {
  messages = codes "etcd" ∷ codes "ok" ∷ [];
  progress = (codes "etcd", 1) ∷ (codes "checking cluster health", 2) ∷ (codes "ok", 3) ∷ [];
}

runs : run stream ≡ ok healthy
unfolding handle_health health_result check_nodes with_nodes
runs = refl

fails :
    run (record stream { failure = some (codes "etcd is down") })
    ≡ err (health_failed (codes "etcd is down"))
unfolding handle_health health_result check_nodes with_nodes
fails = refl

handle_health_sound_example :
    Permitted sample_net none (codes "n1" ∷ [])
    × Permitted sample_net none []
    × Permitted sample_net none (codes "n1" ∷ [])
    × (wait : ℕ) × (s : Stream Text) × (wait_timeout_of duration 120 [] ≡ ok wait)
    × (◌≡◌ {A = Result Text (Stream Text)} (ok stream) (ok s))
    × (s.failure ≡ none)
    × (healthy ≡ record { messages = spoken s.messages; progress = announced 0 s.messages })
handle_health_sound_example =
    handle_health_sound sample_net sample_handlers duration 120 (λ targets wait cps ws. ok stream)
      args healthy runs

container_mode :
    handle_validate
      (λ s. ok s)
      (λ c m strict. (codes "w" ∷ [], none))
      (record { config = codes "{}"; mode = codes "container"; strict = true })
    ≡ ok (record {
      valid = true;
      mode = codes "container";
      strict = true;
      warnings = codes "w" ∷ [];
      errors = [];
    })
unfolding handle_validate talos_mcp_server.Text.text_eq
container_mode = refl

window_ends :
    handle_events {C = ℕ} sample_net sample_handlers
      (λ n. n == 0)
      50
      (λ targets n. (codes "e" ∷ [], deadline_exceeded))
      0
      []
    ≡ ok (record { count = 1; events = codes "e" ∷ [] })
unfolding handle_events with_nodes
window_ends = refl
