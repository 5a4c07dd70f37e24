-- ===== src/Tools/Config/Serial.antt =====
-- Config patches of one node, one after another: the lock around fetch, merge and apply.
use talos_mcp_server.Common.{
  ◌≡◌, inl, inr, Bool, true, false, ◌&&◌, List, [], ◌∷◌, arith, if◌then◌else◌, Option-cases,
  Result-cases, Text, codes,
}
use talos_mcp_server.Text.{text_eq, text_eq_refl}
use talos_mcp_server.Net.{Net}
use talos_mcp_server.Blocklist.{Decoder}
use talos_mcp_server.Tools.Effect.{
  History, with_nodes_cases, ApplyMode, Env, Handlers, audit, rpc, lock, unlock,
}
use talos_mcp_server.Tools.Config.{
  PatchConfigArgs, resolve_dry_run, parse_apply_config_mode, node_id, handle_patch_config,
  merge_and_apply, or_else,
}

-- Whether the lock of a key is held at the end of a history.
unfoldable pub held : Text → History → Bool
held k [] = false
held k (lock j ∷ h) = let rest = held k h in if text_eq j k then true else rest
held k (unlock j ∷ h) = let rest = held k h in if text_eq j k then false else rest
held k (e ∷ h) = held k h

-- Whether every call of the API was made with the lock held.
unfoldable pub calls_locked : Text → History → Bool
unfolding held
calls_locked k [] = true
calls_locked k (rpc channel c ∷ h) = held k h && calls_locked k h
calls_locked k (e ∷ h) = calls_locked k h

module _ (net : Net) (d : Decoder) (env : Env) (h : Handlers) where
  merge_and_apply-held :
      (targets : List Text) (patch : Text) (mode : ApplyMode) (dry : Bool) (k : Text)
      (hist : History)
      → held k hist ≡ true
      → calls_locked k hist ≡ true
      → (held k (merge_and_apply net d env h targets patch mode dry hist).1 ≡ true)
        × (calls_locked k (merge_and_apply net d env h targets patch mode dry hist).1 ≡ true)
  unfolding merge_and_apply held calls_locked
  merge_and_apply-held targets patch mode dry k hist u v = ground arith

  -- From a history in which the node's lock is free and every call of the API was made under it, a
  -- config patch leads to one again: it fetches and applies with the lock held, and releases it on
  -- every path.
  pub patch_config_serial :
      (args : PatchConfigArgs) (hist : History)
      → held (node_id args.nodes) hist ≡ false
      → calls_locked (node_id args.nodes) hist ≡ true
      → (held (node_id args.nodes) (handle_patch_config net d env h args hist).1 ≡ false)
        × (calls_locked (node_id args.nodes) (handle_patch_config net d env h args hist).1 ≡ true)
  unfolding handle_patch_config held calls_locked or_else
  patch_config_serial args hist u v =
      let k = node_id args.nodes in
      let before = lock k ∷ audit (codes "talos_patch_config") ∷ hist in
      elim (Option-cases (parse_apply_config_mode args.mode)) [
        | inl e ↦ ground (arith, with_nodes_cases net h.allowed_nodes args.nodes)
        | inr (mode, e) ↦ elim (Result-cases (env.load_patch args.patch)) [
          | inr (f, p) ↦ ground (arith, with_nodes_cases net h.allowed_nodes args.nodes)
          | inl (loaded, p) ↦ ground (
            arith,
            with_nodes_cases net h.allowed_nodes args.nodes,
            text_eq_refl k,
            merge_and_apply-held args.nodes loaded mode (resolve_dry_run args.dry_run) k before,
          )
        ]
      ]
