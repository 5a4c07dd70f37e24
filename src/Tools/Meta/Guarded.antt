-- ===== src/Tools/Meta/Guarded.antt =====
-- What must hold before a key of the META partition is changed.
use talos_mcp_server.Common.{
  ℕ, ◌≡◌, refl, ◌⊎◌, inl, inr, Bool, true, false, not, ◌||◌, Option, none, some, List, ◌∷◌, arith,
  if◌then◌else◌, Bool-cases, Result-cases, Text, codes, is_empty, Result, ok, err,
}
use talos_mcp_server.Net.{Net}
use talos_mcp_server.MetaKey.{parse_meta_key, has_number}
use talos_mcp_server.Tools.Config.Insecurely.{Gated, gate_cases}
use talos_mcp_server.Tools.Config.Audit.{blamed, Audited, finish-Audited}
use talos_mcp_server.Tools.Effect.{
  History, M, Refusal, finish, mutations, Permitted, with_nodes_cases, Call, Channel, Env, Handlers,
  refused_confirm, refused_meta_key, meta_delete, meta_write, authenticated, insecure, audit, dial,
  confirm_required, meta_key_not_privileged,
}
use talos_mcp_server.Tools.Meta.{
  MetaArgs, MetaAction, reading, writing, deleting, meta_action, change, check_privilege,
  read_meta_from_cosi, act, meta_insecure, meta_authenticated, checked_meta, handle_meta,
}

module _ (reserved : List ℕ) (net : Net) (env : Env) (h : Handlers) where
  -- A run leaves the nodes alone, or makes the one call of the action over the given connection.
  abbrev Changes :
      {A : Type 0} → Result Refusal A × History → History → Channel → Option Call → Type 0
  Changes (r, after) before channel c =
      ((c ≡ none) × (mutations after ≡ mutations before))
      ⊎ ((k : Call) × (c ≡ some k) × (mutations after ≡ (channel, k) ∷ mutations before))

  act-Changes :
      (channel : Channel) (action : MetaAction) (key : ℕ) (value : Text) (hist : History)
      → Changes
          (act reserved net env h channel action key value hist)
          hist
          channel
          (change action key value)
        × (blamed (act reserved net env h channel action key value hist).0 ≡ true)
  unfolding act change read_meta_from_cosi
  act-Changes channel reading key value hist = (inl (refl, ground arith), ground arith)
  act-Changes channel writing key value hist =
      (inr (meta_write key value, refl, ground arith), ground arith)
  act-Changes channel deleting key value hist =
      (inr (meta_delete key, refl, ground arith), ground arith)

  -- The connection that the arguments select, with what its gate asks.
  abbrev pub Reaches : MetaArgs → Channel → Type 0
  Reaches args channel =
      ((args.insecure_flag ≡ false)
        × (channel ≡ authenticated args.nodes)
        × Permitted net h.allowed_nodes args.nodes)
      ⊎ ((args.insecure_flag ≡ true)
          × (canon : Text) × (fp : Option (List ℕ)) × (channel ≡ insecure canon fp)
          × Gated net h args.endpoint args.cert_fingerprint (not (is_empty args.nodes)) canon fp)

  abbrev connect : MetaArgs → MetaAction → ℕ → M Refusal Text
  connect args action key =
      if args.insecure_flag
      then meta_insecure reserved net env h args action key
      else meta_authenticated reserved net env h args action key

  connect_changes :
      (args : MetaArgs) (action : MetaAction) (key : ℕ) (hist : History)
      → ((mutations (connect args action key hist).1 ≡ mutations hist)
          ⊎ ((channel : Channel) × (c : Call) × (change action key args.value ≡ some c)
              × Reaches args channel
              × (mutations (connect args action key hist).1 ≡ (channel, c) ∷ mutations hist)))
        × (blamed (connect args action key hist).0 ≡ true)
  unfolding meta_insecure meta_authenticated
  connect_changes args action key hist = elim (Bool-cases args.insecure_flag) [
    | inr s ↦ elim (with_nodes_cases net h.allowed_nodes args.nodes) [
      | inr (e, p) ↦ rw (s, p) (inl refl, refl)
      | inl (p, q) ↦
          let channel = authenticated args.nodes in
          let (d, b) = act-Changes channel action key args.value hist in
          rw (s, p)
            (
              elim d [
                | inl (n, m) ↦ inl m
                | inr (c, n, m) ↦ inr (channel, c, n, inl (refl, refl, q), m)
              ],
              b,
            )
    ]
    | inl s ↦
        let provided = not (is_empty args.nodes) in
        elim (gate_cases net h args.endpoint args.cert_fingerprint provided hist) [
          | inr (o, e, g, n) ↦ rw (s, g) (inl refl, ground arith)
          | inl (canon, fp, g, gated) ↦
              let before = dial canon fp ∷ hist in
              let channel = insecure canon fp in
              let (d, b) = act-Changes channel action key args.value before in
              elim (Result-cases (env.dial_reply hist canon fp)) [
                | inr (e, q) ↦ rw (s, g, q) (inl refl, refl)
                | inl (u, q) ↦
                    rw (s, g, q)
                      (
                        elim d [
                          | inl (n, m) ↦ inl m
                          | inr (c, n, m) ↦
                              inr (channel, c, n, inr (refl, canon, fp, refl, gated), m)
                        ],
                        b,
                      )
              ]
        ]
  ]

  abbrev Privileged : MetaAction → ℕ → Text → Bool → Type 0
  Privileged action key value confirm =
      (change action key value ≡ none)
      ⊎ ((confirm ≡ true)
          × (has_number key reserved || has_number key h.meta_privileged_keys ≡ true))

  privilege_cases :
      (action : MetaAction) (key : ℕ) (value : Text) (confirm : Bool) (hist : History)
      → ((check_privilege reserved net env h action key confirm hist ≡ (ok tt, hist))
          × Privileged action key value confirm)
        ⊎ ((r : Refusal) × (check_privilege reserved net env h action key confirm hist
              ≡ (err r, hist))
            × (blamed {A = Text} (err r) ≡ true))
  unfolding check_privilege change
  privilege_cases reading key value confirm hist = inl (refl, inl refl)
  privilege_cases writing key value false hist =
      inr ((refused_confirm, confirm_required), refl, refl)
  privilege_cases deleting key value false hist =
      inr ((refused_confirm, confirm_required), refl, refl)
  privilege_cases writing key value true hist =
      elim (Bool-cases (has_number key reserved || has_number key h.meta_privileged_keys)) [
        | inl e ↦ inl (rw e refl, inr (refl, e))
        | inr e ↦ inr ((refused_meta_key, meta_key_not_privileged key), rw e refl, refl)
      ]
  privilege_cases deleting key value true hist =
      elim (Bool-cases (has_number key reserved || has_number key h.meta_privileged_keys)) [
        | inl e ↦ inl (rw e refl, inr (refl, e))
        | inr e ↦ inr ((refused_meta_key, meta_key_not_privileged key), rw e refl, refl)
      ]

  -- What a run that changes a node did.
  abbrev Changed : MetaArgs → History → History → Type 0
  Changed args after before =
      (key : ℕ) × (action : MetaAction) × (channel : Channel) × (c : Call) × (parse_meta_key
          args.key
        ≡ ok key)
      × (meta_action args.action ≡ ok action)
      × (change action key args.value ≡ some c)
      × (args.confirm ≡ true)
      × (has_number key reserved || has_number key h.meta_privileged_keys ≡ true)
      × Reaches args channel
      × (mutations after ≡ (channel, c) ∷ mutations before)

  -- The confirmation and the privilege of a call that was made.
  granted :
      (action : MetaAction) (key : ℕ) (value : Text) (confirm : Bool) (c : Call)
      → change action key value ≡ some c
      → Privileged action key value confirm
      → (confirm ≡ true) × (has_number key reserved || has_number key h.meta_privileged_keys ≡ true)
  granted action key value confirm c e (inl n) = absurd (cc (e, n))
  granted action key value confirm c e (inr p) = p

  checked_cases :
      (args : MetaArgs) (hist : History)
      → ((mutations (checked_meta reserved net env h args hist).1 ≡ mutations hist)
          ⊎ Changed args (checked_meta reserved net env h args hist).1 hist)
        × (blamed (checked_meta reserved net env h args hist).0 ≡ true)
  unfolding checked_meta
  checked_cases args hist =
      elim (Bool-cases (is_empty args.cert_fingerprint || args.insecure_flag)) [
        | inr f ↦ rw f (inl refl, refl)
        | inl f ↦ elim (Result-cases (parse_meta_key args.key)) [
          | inr (e, p) ↦ rw (f, p) (inl refl, refl)
          | inl (key, p) ↦ elim (Result-cases (meta_action args.action)) [
            | inr (e, q) ↦ rw (f, p, q) (inl refl, refl)
            | inl (action, q) ↦ elim (privilege_cases action key args.value args.confirm hist) [
              | inr (r, g, b) ↦ rw (f, p, q, g) (inl refl, b)
              | inl (g, k) ↦
                  let (d, b) = connect_changes args action key hist in
                  rw (f, p, q, g)
                    (
                      elim d [
                        | inl m ↦ inl m
                        | inr (channel, c, n, w, m) ↦
                            let (y, z) = granted action key args.value args.confirm c n k in
                            inr (key, action, channel, c, refl, refl, n, y, z, w, m)
                      ],
                      b,
                    )
            ]
          ]
        ]
      ]

  finish-mutations :
      {A : Type 0} (tool : Text) (r : Result Refusal A) (hist : History)
      → mutations (finish tool (r, hist)).1 ≡ mutations hist
  finish-mutations tool (ok a) hist = refl
  finish-mutations tool (err e) hist = refl

  -- A META call changes nothing; or it is a confirmed write or delete of a readable key that is
  -- reserved for the user or privileged, and makes the one call of that action on that key, over mTLS
  -- to permitted nodes, or over a maintenance-mode connection that its gate let through.
  pub meta_guarded :
      (args : MetaArgs) (hist : History)
      → (mutations (handle_meta reserved net env h args hist).1 ≡ mutations hist)
        ⊎ ((key : ℕ) × (action : MetaAction) × (channel : Channel) × (c : Call) × (parse_meta_key
                args.key
              ≡ ok key)
            × (meta_action args.action ≡ ok action)
            × (change action key args.value ≡ some c)
            × (args.confirm ≡ true)
            × (has_number key reserved || has_number key h.meta_privileged_keys ≡ true)
            × Reaches args channel
            × (mutations (handle_meta reserved net env h args hist).1
                ≡ (channel, c) ∷ mutations hist))
  unfolding handle_meta
  meta_guarded args hist =
      let before = audit (codes "talos_meta") ∷ hist in
      let run = checked_meta reserved net env h args before in
      rw (finish-mutations (codes "talos_meta") run.0 run.1) (checked_cases args before).0

  -- Every META call ends its trail with one outcome, which is "ok" if and only if it succeeded, and
  -- carries an error if and only if it failed.
  meta-Audited :
      (args : MetaArgs) (hist : History)
      → Audited (codes "talos_meta") (handle_meta reserved net env h args hist)
  unfolding handle_meta
  meta-Audited args hist =
      let before = audit (codes "talos_meta") ∷ hist in
      let run = checked_meta reserved net env h args before in
      finish-Audited (codes "talos_meta") run.0 run.1 (checked_cases args before).1
