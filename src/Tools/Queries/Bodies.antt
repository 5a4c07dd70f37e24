-- ===== src/Tools/Queries/Bodies.antt =====
-- The bodies of the queries: they only read, and their failures carry an outcome.
use talos_mcp_server.Common.{
  ◌≡◌, refl, true, List, [], ◌∷◌, arith, if_cases, Text, is_empty, Result, ok, err,
}
use talos_mcp_server.Net.{Net}
use talos_mcp_server.Tools.Effect.{
  History, M, continue, ◌>>=◌, pure, lift, call, Refusal, Call, Channel, Env, Handlers, outcome_ok,
  rpc_error, version, resolve_kind, cosi_list, cosi_get, rpc_failed, marshal_failed,
}
use talos_mcp_server.Tools.Effect.Reads.{
  Reading, bind-Reading, call-Reading, lift-Reading, pure-Reading,
}
use talos_mcp_server.Tools.Config.{refuse}
use talos_mcp_server.Tools.Config.Audit.{blamed}
use talos_mcp_server.Tools.Queries.{
  ask_version, marshal_all, get_one, get_list, get_resource_from_cosi, GetResourceArgs, Cosi,
}

-- A computation whose failures all carry an outcome.
unfoldable pub Blaming : {A : Type 0} → M Refusal A → Type 0
Blaming m = (hist : History) → blamed (m hist).0 ≡ true

continue-blamed :
    {A B : Type 0} (f : A → M Refusal B) (r : Result Refusal A × History)
    → blamed r.0 ≡ true
    → ((a : A) → Blaming (f a))
    → blamed (continue f r).0 ≡ true
unfolding Blaming
continue-blamed f (ok a, h) q k = k a h
continue-blamed f (err (outcome_ok, e), h) q k = absurd (ground arith)
continue-blamed f (err (o, e), h) q k = refl

bind-Blaming :
    {A B : Type 0} (m : M Refusal A) (f : A → M Refusal B)
    → Blaming m
    → ((a : A) → Blaming (f a))
    → Blaming (m >>= f)
unfolding Blaming
bind-Blaming m f q k hist = continue-blamed f (m hist) (q hist) k

module _ (net : Net) (cosi : Cosi) (env : Env) (h : Handlers) where
  pub version-Reading : (c : Channel) → Reading c (ask_version net cosi env h c)
  unfolding ask_version
  version-Reading c = call-Reading env (refuse rpc_error rpc_failed) c version refl

  call-Blaming : (c : Channel) (k : Call) → Blaming (call env (refuse rpc_error rpc_failed) c k)
  unfolding Blaming
  call-Blaming c k hist = ground arith

  lift-Blaming :
      {A : Type 0} (r : Result Text A) → Blaming (lift (refuse rpc_error marshal_failed) r)
  unfolding Blaming
  lift-Blaming (ok a) hist = refl
  lift-Blaming (err e) hist = refl

  pure-Blaming : {A : Type 0} (a : A) → Blaming (pure a)
  unfolding Blaming
  pure-Blaming a hist = refl

  pub version-Blaming : (c : Channel) → Blaming (ask_version net cosi env h c)
  unfolding ask_version
  version-Blaming c = call-Blaming c version

  marshal_all-Reading : (c : Channel) (rs : List Text) → Reading c (marshal_all net cosi env h rs)
  unfolding marshal_all
  marshal_all-Reading c [] = pure-Reading c []
  marshal_all-Reading c (r ∷ rs) =
      bind-Reading c (lift (refuse rpc_error marshal_failed) (env.marshal_resource r)) _
        (lift-Reading c (refuse rpc_error marshal_failed) (env.marshal_resource r))
        (λ d.
          bind-Reading c (marshal_all net cosi env h rs) _ (marshal_all-Reading c rs)
            (λ ds. pure-Reading c (d ∷ ds)))

  marshal_all-Blaming : (rs : List Text) → Blaming (marshal_all net cosi env h rs)
  unfolding marshal_all
  marshal_all-Blaming [] = pure-Blaming []
  marshal_all-Blaming (r ∷ rs) =
      bind-Blaming (lift (refuse rpc_error marshal_failed) (env.marshal_resource r)) _
        (lift-Blaming (env.marshal_resource r))
        (λ d.
          bind-Blaming (marshal_all net cosi env h rs) _ (marshal_all-Blaming rs)
            (λ ds. pure-Blaming (d ∷ ds)))

  get_list-Reading : (c : Channel) (ns type : Text) → Reading c (get_list net cosi env h c ns type)
  unfolding get_list
  get_list-Reading c ns type =
      bind-Reading c (call env (refuse rpc_error rpc_failed) c (cosi_list ns type)) _
        (call-Reading env (refuse rpc_error rpc_failed) c (cosi_list ns type) refl)
        (λ rs. marshal_all-Reading c (cosi.items rs))

  get_one-Reading :
      (c : Channel) (ns type id : Text) → Reading c (get_one net cosi env h c ns type id)
  unfolding get_one
  get_one-Reading c ns type id =
      bind-Reading c (call env (refuse rpc_error rpc_failed) c (cosi_get ns type id)) _
        (call-Reading env (refuse rpc_error rpc_failed) c (cosi_get ns type id) refl)
        (λ r.
          bind-Reading c (lift (refuse rpc_error marshal_failed) (env.marshal_resource r)) _
            (lift-Reading c (refuse rpc_error marshal_failed) (env.marshal_resource r))
            (λ d. pure-Reading c (d ∷ [])))

  get_list-Blaming : (c : Channel) (ns type : Text) → Blaming (get_list net cosi env h c ns type)
  unfolding get_list
  get_list-Blaming c ns type =
      bind-Blaming (call env (refuse rpc_error rpc_failed) c (cosi_list ns type)) _
        (call-Blaming c (cosi_list ns type)) (λ rs. marshal_all-Blaming (cosi.items rs))

  get_one-Blaming :
      (c : Channel) (ns type id : Text) → Blaming (get_one net cosi env h c ns type id)
  unfolding get_one
  get_one-Blaming c ns type id =
      bind-Blaming (call env (refuse rpc_error rpc_failed) c (cosi_get ns type id)) _
        (call-Blaming c (cosi_get ns type id))
        (λ r.
          bind-Blaming (lift (refuse rpc_error marshal_failed) (env.marshal_resource r)) _
            (lift-Blaming (env.marshal_resource r)) (λ d. pure-Blaming (d ∷ [])))

  pub get_resource-Reading :
      (args : GetResourceArgs) (c : Channel)
      → Reading c (get_resource_from_cosi net cosi env h args c)
  unfolding get_resource_from_cosi
  get_resource-Reading args c =
      bind-Reading c
        (call env (refuse rpc_error rpc_failed) c (resolve_kind args.namespace args.resource_type))
        _
        (call-Reading env (refuse rpc_error rpc_failed) c
          (resolve_kind args.namespace args.resource_type) refl)
        (λ kind.
          if_cases (Reading c) (is_empty args.resource_id) _ _
            (λ e. get_list-Reading c (cosi.resolved kind).0 (cosi.resolved kind).1)
            (λ e. get_one-Reading c (cosi.resolved kind).0 (cosi.resolved kind).1 args.resource_id))

  pub get_resource-Blaming :
      (args : GetResourceArgs) (c : Channel)
      → Blaming (get_resource_from_cosi net cosi env h args c)
  unfolding get_resource_from_cosi
  get_resource-Blaming args c =
      bind-Blaming
        (call env (refuse rpc_error rpc_failed) c (resolve_kind args.namespace args.resource_type))
        _ (call-Blaming c (resolve_kind args.namespace args.resource_type))
        (λ kind.
          if_cases {A = M Refusal (List Text)} (Blaming {A = List Text}) (is_empty args.resource_id)
            _ _ (λ e. get_list-Blaming c (cosi.resolved kind).0 (cosi.resolved kind).1)
            (λ e. get_one-Blaming c (cosi.resolved kind).0 (cosi.resolved kind).1 args.resource_id))
