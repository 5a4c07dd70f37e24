-- ===== src/Tools/Lifecycle/Reboot/Liveness.antt =====
-- A reboot that happens in time is reported by `waitForNodeReboot`.
use talos_mcp_server.Common.{ℕ, suc, ◌≤◌, ◌<◌, ◌≡◌, false, [], ◌∷◌, Text, Result}
use talos_mcp_server.Version.{TalosVersion}
use talos_mcp_server.Tools.Effect.{History, Env, node_version, rpc}
use talos_mcp_server.Tools.Lifecycle.Reboot.{Clock}

-- The probes so far.
abbrev pub probes : History → ℕ
probes [] = 0
probes (rpc channel (node_version n) ∷ hist) = suc (probes hist)
probes (e ∷ hist) = probes hist

-- The context of the wait has not ended when so many probes are made: a condition on the run, since
-- the probes take time too.
abbrev pub Lasts : Clock → ℕ → ℕ → Type 0
Lasts clock timeout last =
    (past : History) (slept : ℕ)
    → probes past ≤ last
    → slept < timeout
    → clock.ctx_done past timeout slept ≡ false

-- The node's answer depends on the number of the probe.
abbrev pub Answers : Env → Text → (ℕ → Result Text TalosVersion) → Type 0
Answers env node answer = (past : History) → env.version_reply past [] node ≡ answer (probes past)
