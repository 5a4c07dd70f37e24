-- ===== src/Tools/Lifecycle/Reboot/Waiting.antt =====
-- `waitForNodeReboot`: its loops end.
use talos_mcp_server.Common.{
  ℕ, zero, suc, ◌+◌, ◌*◌, ◌/◌, ◌≤◌, ◌≡◌, refl, Bool, true, false, [], ◌∷◌, arith, if_cases, Text,
  codes, Result, ok, err,
}
use talos_mcp_server.Text.{text_eq}
use talos_mcp_server.Tools.Effect.{
  History, M, continue, Env, node_version, authenticated, progress, rpc,
}
use talos_mcp_server.Tools.Lifecycle.Reboot.{
  Clock, WaitError, reboot_probe_interval, comeback_probe_interval, rounds, poll, verify, read_boot,
  wait_for_node_reboot, out_of_rounds, never_down, never_back, same_error,
}
use talos_mcp_server.Tools.Lifecycle.Reboot.Polling.{Waited, poll_step}

-- A context with a timeout has ended once that time has been paused.
abbrev pub Timely : Clock → Type 0
Timely clock =
    (past : History) (timeout slept : ℕ)
    → timeout ≤ slept
    → clock.ctx_done past timeout slept ≡ true

-- Whether a wait's fuel was spent.
unfoldable pub is_spent : WaitError → Bool
is_spent out_of_rounds = true
is_spent e = false

-- A wait that fails does not do so because its fuel was spent.
abbrev pub Ends : {A : Type 0} → Result WaitError A → Type 0
Ends (ok a) = Unit
Ends (err e) = is_spent e ≡ false

bind-Ends :
    {A B : Type 0} (f : A → M WaitError B) (r : Result WaitError A × History)
    → Ends r.0
    → ((a : A) (hist : History) → Ends (f a hist).0)
    → Ends (continue f r).0
bind-Ends f (ok a, hist) e k = k a hist
bind-Ends f (err e, hist) l k = l

module _ (clock : Clock) (env : Env) where
  poll-Ends :
      Timely clock
      → (up : Bool) (interval timeout : ℕ) (late : WaitError) (node : Text) (n slept : ℕ)
        (hist : History)
      → is_spent late ≡ false
      → timeout ≤ slept + n * interval
      → Ends (poll clock env up interval timeout late node (suc n) slept hist).0
  poll-Ends timely up interval timeout late node zero slept hist l b =
      let after = rpc (authenticated []) (node_version node) ∷ hist in
      let over = timely after timeout slept (omega arith) in
      poll_step clock env (λ r. Ends r.0) up interval timeout late node zero slept hist (λ r. tt) l
        (λ d. cc (over, d))
  poll-Ends timely up interval timeout late node (suc n) slept hist l b =
      let after = rpc (authenticated []) (node_version node) ∷ hist in
      let enough : timeout ≤ slept + interval + n * interval = omega arith in
      poll_step clock env (λ r. Ends r.0) up interval timeout late node (suc n) slept hist (λ r. tt)
        l (λ d. poll-Ends timely up interval timeout late node n (slept + interval) after l enough)

  verify-Ends :
      (node pre : Text) (new : Result Text Text) (hist : History)
      → Ends (verify clock env node pre new hist).0
  unfolding verify is_spent
  verify-Ends node pre (err e) hist = tt
  verify-Ends node pre (ok id) hist =
      if_cases (λ (r : Waited). Ends r.0) (text_eq id pre) _ _ (λ _. refl) (λ _. tt)

  -- The wait for one node always ends, whatever the node answers: if the context of a wait has ended
  -- once the timeout has been paused, the rounds that the model gives the two loops are enough.
  pub wait-Ends :
      Timely clock
      → (timeout : ℕ) (node pre : Text) (hist : History)
      → Ends (wait_for_node_reboot clock env timeout node pre hist).0
  unfolding wait_for_node_reboot rounds is_spent
  wait-Ends timely timeout node pre hist =
      let h0 = progress (codes "Waiting for reboot to start") 0 0 ∷ hist in
      let go_down =
        poll clock env false reboot_probe_interval timeout never_down node
          (rounds timeout reboot_probe_interval) 0 h0 in
      bind-Ends _ go_down
        (poll-Ends timely false reboot_probe_interval timeout never_down node
          (suc (timeout / reboot_probe_interval)) 0 h0 refl (omega arith))
        (λ slept h1.
          let h2 = progress (codes "Rebooting, waiting for node to come back") 0 0 ∷ h1 in
          let come_back =
            poll clock env true comeback_probe_interval timeout never_back node
              (rounds timeout comeback_probe_interval) slept h2 in
          bind-Ends _ come_back
            (poll-Ends timely true comeback_probe_interval timeout never_back node
              (suc (timeout / comeback_probe_interval)) slept h2 refl (omega arith))
            (λ _ h3.
              verify-Ends node pre (read_boot clock env same_error node h3).0
                (read_boot clock env same_error node h3).1))
