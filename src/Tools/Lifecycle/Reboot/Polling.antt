-- ===== src/Tools/Lifecycle/Reboot/Polling.antt =====
-- `waitForNodeReboot`: the ways in which a round of its loops ends.
use talos_mcp_server.Common.{
  ℕ, suc, ◌+◌, ◌≡◌, refl, sym, inl, inr, Bool, true, false, [], ◌∷◌, Bool-cases, Text, Result, ok,
  err,
}
use mathlib.Core.Path.{subst}
use talos_mcp_server.Tools.Effect.{History, Env, node_version, authenticated, rpc}
use talos_mcp_server.Tools.Lifecycle.Reboot.{Clock, WaitError, NodeOutcome, reached, poll}

abbrev pub Waited : Type 0
Waited = NodeOutcome × History

module _ (clock : Clock) (env : Env) where
  pub poll-stop :
      (up : Bool) (interval timeout : ℕ) (late : WaitError) (node : Text) (n slept : ℕ)
      (hist : History)
      → reached up (env.version_reply hist [] node) ≡ true
      → poll clock env up interval timeout late node (suc n) slept hist
        ≡ (ok slept, rpc (authenticated []) (node_version node) ∷ hist)
  unfolding poll
  poll-stop up interval timeout late node n slept hist r = rw r refl

  poll-late :
      (up : Bool) (interval timeout : ℕ) (late : WaitError) (node : Text) (n slept : ℕ)
      (hist : History)
      → reached up (env.version_reply hist [] node) ≡ false
      → clock.ctx_done (rpc (authenticated []) (node_version node) ∷ hist) timeout slept ≡ true
      → poll clock env up interval timeout late node (suc n) slept hist
        ≡ (err late, rpc (authenticated []) (node_version node) ∷ hist)
  unfolding poll
  poll-late up interval timeout late node n slept hist r d = rw (r, d) refl

  pub poll-again :
      (up : Bool) (interval timeout : ℕ) (late : WaitError) (node : Text) (n slept : ℕ)
      (hist : History)
      → reached up (env.version_reply hist [] node) ≡ false
      → clock.ctx_done (rpc (authenticated []) (node_version node) ∷ hist) timeout slept ≡ false
      → poll clock env up interval timeout late node (suc n) slept hist
        ≡ poll clock env up interval timeout late node n
            (slept + interval)
            (rpc (authenticated []) (node_version node) ∷ hist)
  unfolding poll
  poll-again up interval timeout late node n slept hist r d = rw (r, d) refl

  -- A property of all three ways in which a round ends holds of the loop.
  pub poll_step :
      (P : Result WaitError ℕ × History → Type 0) (up : Bool) (interval timeout : ℕ)
      (late : WaitError) (node : Text) (n slept : ℕ) (hist : History)
      → let after = rpc (authenticated []) (node_version node) ∷ hist in
        (reached up (env.version_reply hist [] node) ≡ true → P (ok slept, after))
        → P (err late, after)
        → (clock.ctx_done after timeout slept ≡ false
            → P (poll clock env up interval timeout late node n (slept + interval) after))
        → P (poll clock env up interval timeout late node (suc n) slept hist)
  poll_step P up interval timeout late node n slept hist stop end go =
      let after = rpc (authenticated []) (node_version node) ∷ hist in
      elim (Bool-cases (reached up (env.version_reply hist [] node))) [
        | inl r ↦ subst P (sym (poll-stop up interval timeout late node n slept hist r)) (stop r)
        | inr r ↦ elim (Bool-cases (clock.ctx_done after timeout slept)) [
          | inl d ↦ subst P (sym (poll-late up interval timeout late node n slept hist r d)) end
          | inr d ↦ subst P (sym (poll-again up interval timeout late node n slept hist r d)) (go d)
        ]
      ]
