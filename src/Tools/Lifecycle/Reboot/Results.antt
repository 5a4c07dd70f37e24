-- ===== src/Tools/Lifecycle/Reboot/Results.antt =====
-- What a reboot that has waited reports of its nodes.
use mathlib.Core.Path.{subst}
use talos_mcp_server.Common.{
  ℕ, ◌≡◌, refl, sym, ap, ◌∙◌, inl, inr, true, some, List, [], ◌∷◌, arith, Bool-cases, if_cases,
  Option-cases, Result-cases, Text, codes, is_empty, All, In, Result, ok, err,
}
use talos_mcp_server.Net.{Net}
use talos_mcp_server.Tools.Effect.{
  History, M, continue, pure, call_logged, mutations, with_nodes_cases, RebootMode, Env, Handlers,
  reboot, authenticated, audit, progress, rpc_failed,
}
use talos_mcp_server.Tools.Lifecycle.{or_refuse}
use talos_mcp_server.Tools.Lifecycle.Reboot.{
  refused, Clock, RebootArgs, RebootError, RebootResult, NodeOutcome, wait_for_node_reboot,
  read_boot_ids, wait_all, conclude, reboot_and_wait, handle_reboot, boot_id_of, wait_errors,
  wait_results, parse_reboot_timeout, reboot_mode_of,
}
use talos_mcp_server.Tools.Lifecycle.Reboot.Reading.{Later, Recorded, Known, read_boot_ids-Known}
use talos_mcp_server.Tools.Lifecycle.Reboot.Guarded.{wait-Silent, read_boot_ids-Silent}
use talos_mcp_server.Tools.Lifecycle.Reboot.Confirming.{
  Mutations, WentAround, Confirmed, wait_for_node_reboot_sound,
}

-- The node was seen to go down when just those mutating calls had been made, and to come back, and the
-- results contain one for it, against the boot ID with which it answered after the start and before
-- any mutating call.
abbrev pub Reported : Env → History → Mutations → List RebootResult → Text → Type 0
Reported env start sent rs node =
    WentAround env sent node
    × (r : RebootResult) × In r rs
    × (pre : Text) × Recorded env start node pre
    × Confirmed env sent node pre r

-- The outcomes contain one for the node, whose wait had its recorded boot ID.
abbrev Awaited : Clock → Env → Mutations → List (Text × Text) → List NodeOutcome → Text → Type 0
Awaited clock env sent ids os node =
    (o : NodeOutcome) × In o os
    × (timeout : ℕ) × (past : History) × (mutations past ≡ sent)
    × ((wait_for_node_reboot clock env timeout node (boot_id_of node ids) past).0 ≡ o)

-- A property of a failure and of what follows a success holds of a step and what follows it.
bind_holds :
    {E A B : Type 0} (P : Result E B → Type 0) (f : A → M E B) (r : Result E A × History)
    → ((e : E) → P (err e))
    → ((a : A) (h : History) → r ≡ (ok a, h) → P (f a h).0)
    → P (continue f r).0
bind_holds P f (ok a, h) bad good = good a h refl
bind_holds P f (err e, h) bad good = bad e

All-map : {P Q : Text → Type 0} (ns : List Text) → ((n : Text) → P n → Q n) → All P ns → All Q ns
All-map [] f h = tt
All-map (n ∷ ns) f h = (f n h.0, All-map ns f h.1)

All-zip : (P Q : Text → Type 0) (ns : List Text) → All P ns → All Q ns → All (λ n. P n × Q n) ns
All-zip P Q [] f g = tt
All-zip P Q (n ∷ ns) f g = ((f.0, g.0), All-zip P Q ns f.1 g.1)

In-results :
    (os : List NodeOutcome) (o : NodeOutcome)
    → wait_errors os ≡ []
    → In o os
    → (r : RebootResult) × (o ≡ ok r) × In r (wait_results os)
unfolding wait_errors wait_results
In-results [] o e i = absurd i
In-results (ok r ∷ os) o e (inl p) = (r, p, inl refl)
In-results (ok r ∷ os) o e (inr i) = let (s, p, j) = In-results os o e i in (s, p, inr j)
In-results (err f ∷ os) o e i = cc

empty-nil : {A : Type 0} (xs : List A) → is_empty xs ≡ true → xs ≡ []
empty-nil [] e = refl
empty-nil (x ∷ xs) e = cc

module _ (clock : Clock) (env : Env) where
  abbrev Covers :
      Mutations → List (Text × Text) → List Text → Result RebootError (List NodeOutcome) → Type 0
  Covers sent ids nodes (ok os) = All (Awaited clock env sent ids os) nodes
  Covers sent ids nodes (err e) = Unit

  wait_all-Covers :
      (sent : Mutations) (timeout : ℕ) (ids : List (Text × Text)) (nodes : List Text)
      (hist : History)
      → mutations hist ≡ sent
      → Covers sent ids nodes (wait_all clock env timeout ids nodes hist).0
  unfolding wait_all
  wait_all-Covers sent timeout ids [] hist q = tt
  wait_all-Covers sent timeout ids (n ∷ ns) hist q =
      let w = wait_for_node_reboot clock env timeout n (boot_id_of n ids) hist in
      let still = wait-Silent clock env timeout n (boot_id_of n ids) hist ∙ q in
      bind_holds (Covers sent ids (n ∷ ns)) (λ os. pure {E = RebootError} (w.0 ∷ os))
        (wait_all clock env timeout ids ns w.1) (λ e. tt)
        (λ os h p. (
          (w.0, inl refl, timeout, hist, q, refl),
          All-map ns (λ m (o, i, t, past, s, e). (o, inr i, t, past, s, e))
              (subst (λ r. Covers sent ids ns r.0) p
                (wait_all-Covers sent timeout ids ns w.1 still)),
        ))

  abbrev AllReported :
      History → Mutations → List Text → Result RebootError (List RebootResult) → Type 0
  AllReported start sent nodes (ok rs) = All (Reported env start sent rs) nodes
  AllReported start sent nodes (err e) = Unit

  conclude-AllReported :
      (start : History) (sent : Mutations) (ids : List (Text × Text)) (nodes : List Text)
      (os : List NodeOutcome) (hist : History)
      → All (Known clock env start ids) nodes
      → All (Awaited clock env sent ids os) nodes
      → AllReported start sent nodes (conclude os hist).0
  unfolding conclude
  conclude-AllReported start sent ids nodes os hist known a =
      if_cases (λ (m : M RebootError (List RebootResult)). AllReported start sent nodes (m hist).0)
        (is_empty (wait_errors os)) _ _
        (λ e.
          All-map nodes
            (λ n (k, (o, i, timeout, past, s, w)).
              let pre = boot_id_of n ids in
              let (r, p, j) = In-results os o (empty-nil (wait_errors os) e) i in
              let (around, c) = wait_for_node_reboot_sound clock env timeout n pre past r (w ∙ p) in
              (
                subst (λ t. WentAround env t n) s around,
                r,
                j,
                pre,
                k,
                subst (λ t. Confirmed env t n pre r) s c,
              ))
            (All-zip _ _ nodes known a))
        (λ e. tt)

-- The reboot call, whatever is answered.
reboot_call :
    (env : Env) (mode : RebootMode) (targets : List Text) (hist : History)
    → mutations
        (call_logged env
          (codes "talos_reboot")
          (λ e. refused (rpc_failed e))
          (authenticated targets)
          (reboot mode)
          hist).1
      ≡ (authenticated targets, reboot mode) ∷ mutations hist
reboot_call env mode targets hist =
    elim (Result-cases (env.reply hist (authenticated targets) (reboot mode))) [
      | inl (a, e) ↦ rw e refl
      | inr (x, e) ↦ rw e refl
    ]

module _ (arrival : List NodeOutcome → List NodeOutcome) (net : Net) (clock : Clock) (env : Env)
    (h : Handlers) where
  waited-AllReported :
      ((os : List NodeOutcome) (o : NodeOutcome) → In o os → In o (arrival os))
      → (mode : RebootMode) (timeout : ℕ) (nodes targets : List Text) (start hist : History)
      → Later start hist
      → mutations hist ≡ mutations start
      → AllReported clock env start
          ((authenticated targets, reboot mode) ∷ mutations start)
          nodes
          (reboot_and_wait arrival net clock env h mode timeout nodes targets hist).0
  unfolding reboot_and_wait boot_id_of
  waited-AllReported arrives mode timeout nodes targets start hist (more, l) quiet =
      let sent : Mutations = (authenticated targets, reboot mode) ∷ mutations start in
      let P = AllReported clock env start sent nodes in
      let reading = progress (codes "Reading pre-reboot boot IDs") 1 4 in
      bind_holds P _ (read_boot_ids clock env nodes [] (reading ∷ hist)) (λ e. tt)
        (λ ids h1 r.
          let known =
            (read_boot_ids-Known clock env start nodes [] ids (reading ∷ hist)
              (reading ∷ more, ap (λ t. reading ∷ t) l) quiet (ap (λ t. t.0) r)).1 in
          let still : mutations h1 ≡ mutations start =
            sym (ap (λ t. mutations t.1) r)
            ∙ read_boot_ids-Silent clock env nodes [] (reading ∷ hist)
            ∙ quiet in
          let h2 = progress (codes "Rebooting") 2 4 ∷ h1 in
          bind_holds P _
            (call_logged env (codes "talos_reboot") (λ e. refused (rpc_failed e))
              (authenticated targets) (reboot mode) h2)
            (λ e. tt)
            (λ resp h3 c.
              let now : mutations h3 ≡ sent =
                sym (ap (λ t. mutations t.1) c)
                ∙ reboot_call env mode targets h2
                ∙ ap (λ t. (authenticated targets, reboot mode) ∷ t) still in
              bind_holds P _ (wait_all clock env timeout ids nodes _) (λ e. tt)
                (λ os h4 q.
                  conclude-AllReported clock env start sent ids nodes (arrival os) h4 known (
                    All-map nodes (λ n (o, i, t, past, s, e). (o, arrives os o i, t, past, s, e))
                      (subst (λ x. Covers clock env sent ids nodes x.0) q
                        (wait_all-Covers clock env sent timeout ids nodes _ now))))))

  -- A reboot with a wait that succeeds has, after it sent the reboot, seen every node go down and come
  -- back, and its results contain one for each node: against the boot ID with which the node answered
  -- before the reboot was sent, it reports another one, with which the node answered after it, or
  -- that it could not be read. This is so if every outcome that a node's wait sends arrives.
  pub reboot_wait_sound :
      ((os : List NodeOutcome) (o : NodeOutcome) → In o os → In o (arrival os))
      → (args : RebootArgs) (hist : History) (rs : List RebootResult) → args.wait ≡ true
      → (handle_reboot arrival net clock env h args hist).0 ≡ ok rs
      → (mode : RebootMode) × (reboot_mode_of args.mode ≡ some mode)
        × All
            (Reported env hist ((authenticated args.nodes, reboot mode) ∷ mutations hist) rs)
            args.nodes
  unfolding handle_reboot or_refuse
  reboot_wait_sound arrives args hist rs w p = elim (Bool-cases args.confirm) [
    | inr c ↦ absurd (ground arith)
    | inl c ↦ elim (Bool-cases (is_empty args.nodes)) [
      | inl n ↦ absurd (ground arith)
      | inr n ↦ elim (Option-cases (reboot_mode_of args.mode)) [
        | inl m ↦ absurd (ground arith)
        | inr (mode, m) ↦ elim (Result-cases (parse_reboot_timeout clock args.timeout)) [
          | inr (x, t) ↦ absurd (ground arith)
          | inl (timeout, t) ↦ elim (with_nodes_cases net h.allowed_nodes args.nodes) [
            | inr (x, q) ↦ absurd (ground arith)
            | inl (q, _) ↦ (
              mode,
              m,
              subst
                  (AllReported clock env hist
                    ((authenticated args.nodes, reboot mode) ∷ mutations hist) args.nodes)
                  (rw (c, n, m, w, t, q) at p)
                  (waited-AllReported arrives mode timeout args.nodes args.nodes hist
                    (audit (codes "talos_reboot") ∷ hist) (audit (codes "talos_reboot") ∷ [], refl)
                    refl),
            )
          ]
        ]
      ]
    ]
  ]
