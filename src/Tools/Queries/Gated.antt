-- ===== src/Tools/Queries/Gated.antt =====
-- What talos_version and talos_get ask, and over which connection.
use talos_mcp_server.Common.{
  ℕ, ◌≡◌, refl, ◌⊎◌, inl, inr, Bool, true, false, not, ◌||◌, Option, List, ◌∷◌, arith,
  if◌then◌else◌, Bool-cases, Result-cases, Text, codes, is_empty, Result, ok, err,
}
use talos_mcp_server.Net.{Net}
use talos_mcp_server.Tools.Effect.{
  History, M, Refusal, finish, Permitted, with_nodes_cases, Channel, Env, Handlers, authenticated,
  insecure, audit, dial,
}
use talos_mcp_server.Tools.Effect.Reads.{calls, OnlyReads, Reading}
use talos_mcp_server.Tools.Config.Audit.{blamed, Audited, finish-Audited}
use talos_mcp_server.Tools.Config.Insecurely.{Gated, gate_cases}
use talos_mcp_server.Tools.Queries.{
  over_insecure, over_mtls, ask_version, checked_version, handle_version, get_resource_from_cosi,
  checked_get_resource, handle_get_resource, VersionArgs, GetResourceArgs, Cosi,
}
use talos_mcp_server.Tools.Queries.Bodies.{
  Blaming, version-Reading, version-Blaming, get_resource-Reading, get_resource-Blaming,
}

module _ (net : Net) (cosi : Cosi) (env : Env) (h : Handlers) where
  -- The connection that the arguments of a gated tool select, with what its gate asks.
  abbrev pub Reaches : List Text → Bool → Text → Text → Channel → Type 0
  Reaches nodes insecure_flag endpoint fingerprint channel =
      ((insecure_flag ≡ false)
        × (channel ≡ authenticated nodes)
        × Permitted net h.allowed_nodes nodes)
      ⊎ ((insecure_flag ≡ true)
          × (canon : Text) × (fp : Option (List ℕ)) × (channel ≡ insecure canon fp)
          × Gated net h endpoint fingerprint (not (is_empty nodes)) canon fp)

  -- A run asks nothing, or only reads over the connection that its arguments select.
  abbrev pub Asks : List Text → Bool → Text → Text → History → History → Type 0
  Asks nodes insecure_flag endpoint fingerprint after before =
      (calls after ≡ calls before)
      ⊎ ((channel : Channel) × Reaches nodes insecure_flag endpoint fingerprint channel
          × OnlyReads channel after before)

  abbrev connected :
      {A : Type 0} → List Text → Bool → Text → Text → (Channel → M Refusal A) → M Refusal A
  connected nodes insecure_flag endpoint fingerprint body =
      if insecure_flag
      then over_insecure net cosi env h endpoint fingerprint nodes body
      else over_mtls net cosi env h nodes body

  connected_cases :
      {A : Type 0} (nodes : List Text) (insecure_flag : Bool) (endpoint fingerprint : Text)
      (body : Channel → M Refusal A) (hist : History)
      → ((c : Channel) → Reading c (body c))
      → ((c : Channel) → Blaming (body c))
      → Asks nodes insecure_flag endpoint fingerprint
          (connected nodes insecure_flag endpoint fingerprint body hist).1
          hist
        × (blamed (connected nodes insecure_flag endpoint fingerprint body hist).0 ≡ true)
  unfolding over_insecure over_mtls Reading Blaming
  connected_cases nodes false endpoint fingerprint body hist reads blames =
      elim (with_nodes_cases net h.allowed_nodes nodes) [
        | inr (e, p) ↦ rw p (inl refl, refl)
        | inl (p, q) ↦
            let channel = authenticated nodes in
            rw p (inr (channel, inl (refl, refl, q), reads channel hist), blames channel hist)
      ]
  connected_cases nodes true endpoint fingerprint body hist reads blames =
      elim (gate_cases net h endpoint fingerprint (not (is_empty nodes)) hist) [
        | inr (o, e, g, n) ↦ rw g (inl refl, ground arith)
        | inl (canon, fp, g, gated) ↦
            let channel = insecure canon fp in
            let before = dial canon fp ∷ hist in
            elim (Result-cases (env.dial_reply hist canon fp)) [
              | inr (e, q) ↦ rw (g, q) (inl refl, refl)
              | inl (u, q) ↦
                  rw (g, q)
                    (
                      inr (channel, inr (refl, canon, fp, refl, gated), reads channel before),
                      blames channel before,
                    )
            ]
      ]

  finish-calls :
      {A : Type 0} (tool : Text) (r : Result Refusal A) (hist : History)
      → calls (finish tool (r, hist)).1 ≡ calls hist
  finish-calls tool (ok a) hist = refl
  finish-calls tool (err e) hist = refl

  -- A version query asks nothing, or it only reads, over the one connection that its arguments select:
  -- mTLS to nodes that are all permitted, or the maintenance-mode endpoint that the gate let through.
  -- Its trail ends with one outcome, which is "ok" if and only if it succeeded.
  pub version_gated :
      (args : VersionArgs) (hist : History)
      → Asks args.nodes args.insecure_flag args.endpoint args.cert_fingerprint
          (handle_version net cosi env h args hist).1
          hist
        × Audited (codes "talos_version") (handle_version net cosi env h args hist)
  unfolding handle_version checked_version Reading Blaming
  version_gated args hist =
      let before = audit (codes "talos_version") ∷ hist in
      let run = checked_version net cosi env h args before in
      let both = checked before in
      (
        rw (finish-calls (codes "talos_version") run.0 run.1) both.0,
        finish-Audited (codes "talos_version") run.0 run.1 both.1,
      )
    where
      checked :
          (before : History)
          → Asks args.nodes args.insecure_flag args.endpoint args.cert_fingerprint
              (checked_version net cosi env h args before).1
              before
            × (blamed (checked_version net cosi env h args before).0 ≡ true)
      checked before = elim (Bool-cases (is_empty args.cert_fingerprint || args.insecure_flag)) [
        | inr f ↦ rw f (inl refl, refl)
        | inl f ↦ rw f (
            connected_cases args.nodes args.insecure_flag args.endpoint args.cert_fingerprint
              (ask_version net cosi env h) before (version-Reading net cosi env h)
              (version-Blaming net cosi env h))
      ]

  -- Reading a resource asks nothing, or it only reads, over the one connection that its arguments
  -- select: mTLS to nodes that are all permitted, or the maintenance-mode endpoint that the gate let
  -- through. Its trail ends with one outcome, which is "ok" if and only if it succeeded.
  pub get_resource_gated :
      (args : GetResourceArgs) (hist : History)
      → Asks args.nodes args.insecure_flag args.endpoint args.cert_fingerprint
          (handle_get_resource net cosi env h args hist).1
          hist
        × Audited (codes "talos_get") (handle_get_resource net cosi env h args hist)
  unfolding handle_get_resource checked_get_resource Reading Blaming
  get_resource_gated args hist =
      let before = audit (codes "talos_get") ∷ hist in
      let run = checked_get_resource net cosi env h args before in
      let both = checked before in
      (
        rw (finish-calls (codes "talos_get") run.0 run.1) both.0,
        finish-Audited (codes "talos_get") run.0 run.1 both.1,
      )
    where
      checked :
          (before : History)
          → Asks args.nodes args.insecure_flag args.endpoint args.cert_fingerprint
              (checked_get_resource net cosi env h args before).1
              before
            × (blamed (checked_get_resource net cosi env h args before).0 ≡ true)
      checked before = elim (Bool-cases (is_empty args.cert_fingerprint || args.insecure_flag)) [
        | inr f ↦ rw f (inl refl, refl)
        | inl f ↦ rw f (
            connected_cases args.nodes args.insecure_flag args.endpoint args.cert_fingerprint
              (get_resource_from_cosi net cosi env h args) before
              (get_resource-Reading net cosi env h args) (get_resource-Blaming net cosi env h args))
      ]
