-- ===== src/Tools/Lifecycle/Reboot/Confirming.antt =====
-- `waitForNodeReboot`: what a success says of the node.
use talos_mcp_server.Common.{
  ℕ, zero, suc, ◌+◌, ◌≡◌, refl, sym, ap, ◌∙◌, ◌≢◌, ◌⊎◌, inl, inr, Bool, true, false, List, [], ◌∷◌,
  ◌++◌, append_assoc, if_cases, Result-cases, Text, codes, Result, ok, err,
}
use talos_mcp_server.Text.{text_eq, text_eq_iff}
use talos_mcp_server.Version.{TalosVersion}
use mathlib.Core.Path.{subst}
use talos_mcp_server.Tools.Effect.{
  History, M, continue, mutations, Call, Channel, Event, Env, node_version, authenticated, progress,
  rpc,
}
use talos_mcp_server.Tools.Lifecycle.Reboot.{
  Clock, RebootResult, WaitError, NodeOutcome, reboot_probe_interval, comeback_probe_interval,
  rounds, reached, poll, verify, read_boot, wait_for_node_reboot, never_down, never_back, rebooted,
  verification_failed, same_error,
}
use talos_mcp_server.Tools.Lifecycle.Reboot.Polling.{Waited, poll_step}
use talos_mcp_server.Tools.Lifecycle.Reboot.Reading.{Later, BootAt, read_boot_ok}

-- The mutating calls so far, newest first.
abbrev pub Mutations : Type 0
Mutations = List (Channel × Call)

-- When just those calls had been made, the node did not answer a probe, and it answered one behind it.
abbrev pub WentAround : Env → Mutations → Text → Type 0
WentAround env sent node =
    (down : History) × (up : History) × (e : Text) × (v : TalosVersion) × (env.version_reply down []
        node
      ≡ err e)
    × (env.version_reply up [] node ≡ ok v)
    × Later down up
    × (mutations down ≡ sent)

-- What a result says of a node: when just those mutating calls had been made, it answered with another
-- boot ID than before; or it could not be read.
abbrev pub Confirmed : Env → Mutations → Text → Text → RebootResult → Type 0
Confirmed env sent node pre r =
    (r.node ≡ node)
    × (r.old_boot_id ≡ pre)
    × (((id : Text) × (r.new_boot_id ≡ ok id)
          × (id ≢ pre)
          × (r.status ≡ rebooted)
          × (now : History) × (mutations now ≡ sent)
          × BootAt env node now id)
        ⊎ ((e : Text) × (r.new_boot_id ≡ err e) × (r.status ≡ verification_failed)))

abbrev Confirms : Env → Mutations → Text → Text → NodeOutcome → Type 0
Confirms env sent node pre (ok r) = Confirmed env sent node pre r
Confirms env sent node pre (err e) = Unit

abbrev Sound : Env → Mutations → Text → Text → NodeOutcome → Type 0
Sound env sent node pre (ok r) = WentAround env sent node × Confirmed env sent node pre r
Sound env sent node pre (err e) = Unit

attach :
    (env : Env) (sent : Mutations) (node pre : Text)
    → WentAround env sent node
    → (o : NodeOutcome) → Confirms env sent node pre o
    → Sound env sent node pre o
attach env sent node pre around (ok r) c = (around, c)
attach env sent node pre around (err e) c = tt

bind_cases :
    {A B : Type 0} (Q : Result WaitError B × History → Type 0) (f : A → M WaitError B)
    (r : Result WaitError A × History)
    → ((e : WaitError) (h : History) → r ≡ (err e, h) → Q (err e, h))
    → ((a : A) (h : History) → r ≡ (ok a, h) → Q (f a h))
    → Q (continue f r)
bind_cases Q f (ok a, h) bad good = good a h refl
bind_cases Q f (err e, h) bad good = bad e h refl

module _ (clock : Clock) (env : Env) where
  -- If a run ends well, a probe behind the start had the answer that is waited for.
  abbrev Sees : Bool → Text → History → Result WaitError ℕ × History → Type 0
  Sees up node start (err e, hist) = Unit
  Sees up node start (ok slept, hist) =
      (seen : History) × Later start seen
      × (mutations seen ≡ mutations start)
      × (reached up (env.version_reply seen [] node) ≡ true)
      × (hist ≡ rpc (authenticated []) (node_version node) ∷ seen)

  earlier :
      (up : Bool) (node : Text) (hist : History) (e : Event) (r : Result WaitError ℕ × History)
      → mutations (e ∷ hist) ≡ mutations hist
      → Sees up node (e ∷ hist) r
      → Sees up node hist r
  earlier up node hist e (err f, after) quiet s = tt
  earlier up node hist e (ok slept, after) quiet (seen, (more, p), m, q, a) =
      (seen, (more ++ e ∷ [], p ∙ sym (append_assoc more (e ∷ []) hist)), m ∙ quiet, q, a)

  -- A loop that ends well has seen the answer that it waits for.
  poll-Sees :
      (up : Bool) (interval timeout : ℕ) (late : WaitError) (node : Text) (n slept : ℕ)
      (hist : History)
      → Sees up node hist (poll clock env up interval timeout late node n slept hist)
  unfolding poll
  poll-Sees up interval timeout late node zero slept hist = tt
  poll-Sees up interval timeout late node (suc n) slept hist =
      let after = rpc (authenticated []) (node_version node) ∷ hist in
      poll_step clock env (Sees up node hist) up interval timeout late node n slept hist
        (λ r. (hist, ([], refl), refl, r, refl)) tt
        (λ d.
          earlier up node hist (rpc (authenticated []) (node_version node))
            (poll clock env up interval timeout late node n (slept + interval) after) refl
            (poll-Sees up interval timeout late node n (slept + interval) after))

  saw_down :
      (node : Text) (hist : History)
      → reached false (env.version_reply hist [] node) ≡ true
      → (e : Text) × (env.version_reply hist [] node ≡ err e)
  unfolding reached
  saw_down node hist r = elim (Result-cases (env.version_reply hist [] node)) [
    | inl (v, p) ↦ cc
    | inr q ↦ q
  ]

  saw_up :
      (node : Text) (hist : History)
      → reached true (env.version_reply hist [] node) ≡ true
      → (v : TalosVersion) × (env.version_reply hist [] node ≡ ok v)
  unfolding reached
  saw_up node hist r = elim (Result-cases (env.version_reply hist [] node)) [
    | inl q ↦ q
    | inr (e, p) ↦ cc
  ]

  verify-Confirms :
      (sent : Mutations) (node pre : Text) (new : Result Text Text) (now hist : History)
      → mutations now ≡ sent
      → ((id : Text) → new ≡ ok id → BootAt env node now id)
      → Confirms env sent node pre (verify clock env node pre new hist).0
  unfolding verify
  verify-Confirms sent node pre (err e) now hist q at = (refl, refl, inr (e, refl, refl))
  verify-Confirms sent node pre (ok id) now hist q at =
      if_cases (λ (r : Waited). Confirms env sent node pre r.0) (text_eq id pre) _ _ (λ _. tt)
        (λ f. (
          refl,
          refl,
          inl (id, refl, (λ e. cc (f, (text_eq_iff id pre).1 e)), refl, now, q, at id refl),
        ))

  -- Both loops ended well, and so does the check behind them.
  both :
      {node : Text} {start h1 h3 : History} {note : Event} (pre : Text) (slept again : ℕ)
      → Sees false node start (ok slept, h1)
      → Sees true node (note ∷ h1) (ok again, h3)
      → mutations (note ∷ h1) ≡ mutations h1
      → (new : Result Text Text) (hist : History)
      → ((id : Text) → new ≡ ok id → BootAt env node h3 id)
      → Sound env (mutations start) node pre (verify clock env node pre new hist).0
  both {node = node} {start = start} {h3 = h3} {note = note} pre slept again (d, (m, p), z, x, y)
        (u, (n, q), k, v, w) quiet new hist at =
      let (e, down) = saw_down node d x in
      let (t, up) = saw_up node u v in
      let probe = rpc (authenticated []) (node_version node) in
      let later : u ≡ (n ++ note ∷ probe ∷ []) ++ d =
        q ∙ ap (λ h. n ++ note ∷ h) y ∙ sym (append_assoc n (note ∷ probe ∷ []) d) in
      let still : mutations h3 ≡ mutations start =
        ap mutations w ∙ k ∙ quiet ∙ ap mutations y ∙ z in
      attach env (mutations start) node pre
        (d, u, e, t, down, up, (n ++ note ∷ probe ∷ [], later), z)
        (verify clock env node pre new hist).0
        (verify-Confirms (mutations start) node pre new h3 hist still at)

  -- A wait for a node that succeeds has seen it go down, with no mutating call since its start, and come
  -- back, and reports another boot ID than the given one, with which the node answered, or that it
  -- could not be read.
  pub wait_for_node_reboot_sound :
      (timeout : ℕ) (node pre : Text) (hist : History) (r : RebootResult)
      → (wait_for_node_reboot clock env timeout node pre hist).0 ≡ ok r
      → WentAround env (mutations hist) node × Confirmed env (mutations hist) node pre r
  unfolding wait_for_node_reboot
  wait_for_node_reboot_sound timeout node pre hist r p =
      subst (Sound env (mutations hist) node pre) p (
        bind_cases Q _ down (λ e h _. tt)
          (λ slept h1 e1.
            bind_cases Q _ (come_back slept h1) (λ e h _. tt)
              (λ again h3 e3.
                both pre slept again
                  (subst (Sees false node h0) e1 (
                    poll-Sees false reboot_probe_interval timeout never_down node
                      (rounds timeout reboot_probe_interval) 0 h0))
                  (subst (Sees true node (note ∷ h1)) e3 (
                    poll-Sees true comeback_probe_interval timeout never_back node
                      (rounds timeout comeback_probe_interval) slept (note ∷ h1)))
                  refl (read_boot clock env same_error node h3).0
                  (read_boot clock env same_error node h3).1
                  (λ id e. (read_boot_ok clock env same_error node h3 id e).0))))
    where
      Q : Waited → Type 0
      Q o = Sound env (mutations hist) node pre o.0

      note : Event
      note = progress (codes "Rebooting, waiting for node to come back") 0 0

      h0 : History
      h0 = progress (codes "Waiting for reboot to start") 0 0 ∷ hist

      down : Result WaitError ℕ × History
      down =
          poll clock env false reboot_probe_interval timeout never_down node
            (rounds timeout reboot_probe_interval) 0 h0

      come_back : ℕ → History → Result WaitError ℕ × History
      come_back slept h1 =
          poll clock env true comeback_probe_interval timeout never_back node
            (rounds timeout comeback_probe_interval) slept (note ∷ h1)
