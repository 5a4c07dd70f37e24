-- ===== src/Tools/Lifecycle/Reboot/Guarded.antt =====
-- What must hold before a reboot is sent, and that its wait sends nothing more.
use talos_mcp_server.Common.{
  ℕ, zero, suc, ◌+◌, ◌≡◌, refl, ap, ◌∙◌, ◌≢◌, ◌⊎◌, inl, inr, Bool, true, false, some, List, [], ◌∷◌,
  arith, Option-cases, Result-cases, Text, codes, Result, ok, err,
}
use talos_mcp_server.Net.{Net}
use talos_mcp_server.Tools.Effect.{
  History, ◌>>=◌, pure, call, mutations, Sent, Refused, Permitted, with_nodes_cases, RebootMode,
  Env, Handlers, reboot, node_version, read_boot_id, authenticated, audit, progress, rpc,
}
use talos_mcp_server.Tools.Lifecycle.Reboot.{
  Clock, RebootArgs, RebootError, WaitError, NodeOutcome, reboot_probe_interval,
  comeback_probe_interval, rounds, poll, verify, read_boot, wait_for_node_reboot, same_error,
  attempt, read_boot_ids, wait_all, conclude, reboot_only, reboot_and_wait, handle_reboot,
  reboot_mode_of, parse_reboot_timeout, boot_id_of, boot_id_unread, never_down, never_back,
}
use talos_mcp_server.Tools.Lifecycle.{or_refuse}
use talos_mcp_server.Tools.Effect.Silent.{Silent, bind-Silent, call-Silent, call_logged-mutations}
use talos_mcp_server.Tools.Lifecycle.Reboot.Polling.{poll_step}

module _ (clock : Clock) (env : Env) where
  poll-Silent :
      (up : Bool) (interval timeout : ℕ) (late : WaitError) (node : Text) (n slept : ℕ)
      → Silent (poll clock env up interval timeout late node n slept)
  unfolding poll
  poll-Silent up interval timeout late node zero slept hist = refl
  poll-Silent up interval timeout late node (suc n) slept hist =
      poll_step clock env (λ r. mutations r.1 ≡ mutations hist) up interval timeout late node n
        slept hist (λ _. refl) refl
        (λ _.
          poll-Silent up interval timeout late node n (slept + interval)
            (rpc (authenticated []) (node_version node) ∷ hist))

  verify-Silent :
      (node pre : Text) (new : Result Text Text) → Silent (verify clock env node pre new)
  unfolding verify
  verify-Silent node pre (err e) hist = refl
  verify-Silent node pre (ok id) hist = ground arith

  read_boot-Silent :
      {E : Type 0} (wrap : Text → E) (node : Text) → Silent (read_boot clock env wrap node)
  unfolding read_boot
  read_boot-Silent wrap node =
      bind-Silent (call env wrap (authenticated (node ∷ [])) (read_boot_id node)) _
        (call-Silent env wrap (authenticated (node ∷ [])) (read_boot_id node) refl) (λ a h. refl)

  pub wait-Silent :
      (timeout : ℕ) (node pre : Text) → Silent (wait_for_node_reboot clock env timeout node pre)
  unfolding wait_for_node_reboot
  wait-Silent timeout node pre hist =
      bind-Silent
        (poll clock env false reboot_probe_interval timeout never_down node
          (rounds timeout reboot_probe_interval) 0)
        _
        (poll-Silent false reboot_probe_interval timeout never_down node
          (rounds timeout reboot_probe_interval) 0)
        (λ slept h.
          bind-Silent
            (poll clock env true comeback_probe_interval timeout never_back node
              (rounds timeout comeback_probe_interval) slept)
            _
            (poll-Silent true comeback_probe_interval timeout never_back node
              (rounds timeout comeback_probe_interval) slept)
            (λ _.
              bind-Silent (attempt (read_boot clock env same_error node))
                (verify clock env node pre) (read_boot-Silent same_error node)
                (verify-Silent node pre))
            (progress (codes "Rebooting, waiting for node to come back") 0 0 ∷ h))
        (progress (codes "Waiting for reboot to start") 0 0 ∷ hist)

  pub read_boot_ids-Silent :
      (nodes : List Text) (ids : List (Text × Text)) → Silent (read_boot_ids clock env nodes ids)
  unfolding read_boot_ids
  read_boot_ids-Silent [] ids hist = refl
  read_boot_ids-Silent (n ∷ ns) ids hist =
      bind-Silent (read_boot clock env (boot_id_unread n) n) _
        (read_boot-Silent (boot_id_unread n) n) (λ id. read_boot_ids-Silent ns ((n, id) ∷ ids)) hist

  wait_all-Silent :
      (timeout : ℕ) (ids : List (Text × Text)) (nodes : List Text)
      → Silent (wait_all clock env timeout ids nodes)
  unfolding wait_all
  wait_all-Silent timeout ids [] hist = refl
  wait_all-Silent timeout ids (n ∷ ns) hist =
      let (o, h1) = wait_for_node_reboot clock env timeout n (boot_id_of n ids) hist in
      bind-Silent (wait_all clock env timeout ids ns) (λ os. pure {E = RebootError} (o ∷ os))
        (wait_all-Silent timeout ids ns) (λ os past. refl) h1
      ∙ wait-Silent timeout n (boot_id_of n ids) hist

conclude-Silent : (os : List NodeOutcome) → Silent (conclude os)
unfolding conclude
conclude-Silent os hist = ground arith

-- A reboot with a wait that begins has read the boot IDs of all the nodes before.
abbrev pub Ready : Clock → Env → RebootArgs → Type 0
Ready clock env args =
    (args.wait ≡ false)
    ⊎ ((timeout : ℕ) × (ids : List (Text × Text)) × (past : History) × (parse_reboot_timeout clock
            args.timeout
          ≡ ok timeout)
        × ((read_boot_ids clock env args.nodes [] past).0 ≡ ok ids))

module _ (arrival : List NodeOutcome → List NodeOutcome) (net : Net) (clock : Clock) (env : Env)
    (h : Handlers) where
  waiting-Silent :
      (timeout : ℕ) (ids : List (Text × Text)) (nodes : List Text)
      → Silent (wait_all clock env timeout ids nodes >>= λ os. conclude (arrival os))
  waiting-Silent timeout ids nodes =
      bind-Silent (wait_all clock env timeout ids nodes) _
        (wait_all-Silent clock env timeout ids nodes) (λ os. conclude-Silent (arrival os))

  reboot_and_wait-cases :
      (mode : RebootMode) (timeout : ℕ) (nodes targets : List Text) (hist : History)
      → let r = reboot_and_wait arrival net clock env h mode timeout nodes targets hist in
        Refused r hist
        ⊎ (((ids : List (Text × Text)) × (past : History) × ((read_boot_ids clock env nodes []
                  past).0
                ≡ ok ids))
            × Sent r hist (authenticated targets) (reboot mode))
  unfolding reboot_and_wait
  reboot_and_wait-cases mode timeout nodes targets hist =
      let h0 = progress (codes "Reading pre-reboot boot IDs") 1 4 ∷ hist in
      let quiet = read_boot_ids-Silent clock env nodes [] h0 in
      elim (Result-cases (read_boot_ids clock env nodes [] h0).0) [
        | inr (e, p) ↦ inl (rw p quiet, rw p refl)
        | inl (ids, p) ↦ inr (
          (ids, h0, p),
          rw p (
              call_logged-mutations env (codes "talos_reboot") _ (authenticated targets)
                (reboot mode) _ refl
                (λ a past.
                  waiting-Silent timeout ids nodes
                    (progress (codes "Waiting for node(s) to complete reboot") 3 4 ∷ past))
                (progress (codes "Rebooting") 2 4 ∷ (read_boot_ids clock env nodes [] h0).1)
              ∙ ap (λ ms. (authenticated targets, reboot mode) ∷ ms) quiet),
        )
      ]

  -- A reboot that is not refused was confirmed, names its nodes, all permitted, and a known mode; with
  -- a wait, its timeout is valid and the boot IDs of all its nodes were read. It makes one mutating
  -- call, the reboot of just those nodes, and its wait makes none. A refused one makes none.
  pub reboot_guarded :
      (args : RebootArgs) (hist : History)
      → Refused (handle_reboot arrival net clock env h args hist) hist
        ⊎ ((args.confirm ≡ true)
            × (args.nodes ≢ [])
            × Permitted net h.allowed_nodes args.nodes
            × Ready clock env args
            × (mode : RebootMode) × (reboot_mode_of args.mode ≡ some mode)
            × Sent
                (handle_reboot arrival net clock env h args hist)
                hist
                (authenticated args.nodes)
                (reboot mode))
  unfolding handle_reboot reboot_only or_refuse
  reboot_guarded args hist =
      let h1 = audit (codes "talos_reboot") ∷ hist in
      elim (Option-cases (reboot_mode_of args.mode)) [
        | inl e ↦ ground arith
        | inr (mode, e) ↦ elim (Result-cases (parse_reboot_timeout clock args.timeout)) [
          | inr (f, p) ↦ ground (arith, with_nodes_cases net h.allowed_nodes args.nodes)
          | inl (timeout, p) ↦ ground (
            arith,
            with_nodes_cases net h.allowed_nodes args.nodes,
            reboot_and_wait-cases mode timeout args.nodes args.nodes h1,
          )
        ]
      ]
