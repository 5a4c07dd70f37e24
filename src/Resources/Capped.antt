-- ===== src/Resources/Capped.antt =====
-- What a client reads from handleCOSIResource of internal/resources/cosi.go.
use talos_mcp_server.Common.{
  ℕ, zero, suc, ◌≤◌, ◌≡◌, refl, ap, ◌∙◌, ◌⊎◌, inl, inr, true, false, Option, List, [], ◌∷◌, arith,
  ltb, if◌then◌else◌, if_cases, Result-cases, Text, length, take, is_empty, Result, ok, err,
}
use talos_mcp_server.Net.{Net}
use talos_mcp_server.Nodes.{NodeAllowlist, check_node}
use talos_mcp_server.CosiUri.{Urls, CosiUri, parse_cosi_uri}
use talos_mcp_server.Tools.Effect.{
  History, M, continue, lift, with_nodes_cases, Env, resolve_kind, cosi_list, cosi_get,
  authenticated, rpc,
}
use talos_mcp_server.Tools.Queries.{Cosi}
use talos_mcp_server.Resources.{
  ReadError, Json, Payload, max_list_results, collect_items, get_item, list_items, read_resource,
  handle_cosi_resource, json_failed,
}
use talos_mcp_server.Resources.Items.{marshal_each, length-marshal_each, collect_items_exact}

take_size : (n : ℕ) (xs : List Text) → length (take n xs) ≤ n
take_size zero xs = omega arith
take_size (suc n) [] = omega arith
take_size (suc n) (x ∷ xs) = omega (arith, take_size n xs)

module _ (net : Net) (urls : Urls) (cosi : Cosi) (json : Json) (env : Env)
    (allowed_nodes : Option NodeAllowlist) where
  -- The payload is the first hundred of these resources, marshalled, with the flag for more of them.
  abbrev pub FirstItems : List Text → Payload → Type 0
  FirstItems rs p =
      (marshal_each env.marshal_resource (take max_list_results rs) ≡ ok p.results)
      × (p.truncated ≡ ltb max_list_results (length rs))

  -- The calls of a successful run behind the resolution of the kind, and the payload of their answer.
  abbrev pub Answered : CosiUri → Text → Payload → History → History → Type 0
  Answered c kind p asked after =
      let channel = authenticated (c.node ∷ []) in
      let (ns, type) = cosi.resolved kind in
      ((is_empty c.resource_id ≡ true)
        × (answer : Text) × (after ≡ rpc channel (cosi_list ns type) ∷ asked)
        × (env.reply asked channel (cosi_list ns type) ≡ ok answer)
        × FirstItems (cosi.items answer) p)
      ⊎ ((is_empty c.resource_id ≡ false)
          × (answer : Text) × (after ≡ rpc channel (cosi_get ns type c.resource_id) ∷ asked)
          × (env.reply asked channel (cosi_get ns type c.resource_id) ≡ ok answer)
          × (item : Text) × (env.marshal_resource answer ≡ ok item)
          × (p ≡ record { results = item ∷ []; truncated = false }))

  items_size :
      (rs : List Text) (p : Payload) → FirstItems rs p → length p.results ≤ max_list_results
  items_size rs p (e, _) = omega (
    arith,
    length-marshal_each env.marshal_resource (take max_list_results rs) p.results e,
    take_size max_list_results rs,
  )

  collected :
      (rs : List Text) (p : Payload)
      → collect_items env.marshal_resource [] rs ≡ ok p
      → FirstItems rs p
  collected rs p h =
      elim (Result-cases (marshal_each env.marshal_resource (take max_list_results rs))) [
        | inl (ds, e) ↦ ground (arith, collect_items_exact env.marshal_resource rs)
        | inr (x, e) ↦ ground (arith, collect_items_exact env.marshal_resource rs)
      ]

  list_items_ok :
      (c : CosiUri) (kind : Text) (p : Payload) (asked : History)
      → is_empty c.resource_id ≡ true
      → (list_items net urls cosi json env allowed_nodes
          (authenticated (c.node ∷ []))
          (cosi.resolved kind).0
          (cosi.resolved kind).1
          asked).0
        ≡ ok p
      → Answered c kind p asked
          (list_items net urls cosi json env allowed_nodes
            (authenticated (c.node ∷ []))
            (cosi.resolved kind).0
            (cosi.resolved kind).1
            asked).1
        × (length p.results ≤ max_list_results)
  unfolding list_items
  list_items_ok c kind p asked i h =
      let channel = authenticated (c.node ∷ []) in
      let (ns, type) = cosi.resolved kind in
      elim (Result-cases (env.reply asked channel (cosi_list ns type))) [
        | inl (answer, e) ↦
            elim (Result-cases (collect_items env.marshal_resource [] (cosi.items answer))) [
              | inl (q, k) ↦
                  let same : q ≡ p = ground arith in
                  let first = collected (cosi.items answer) p (k ∙ ap ok same) in
                  (
                    inl (i, answer, rw (e, k) refl, e, first),
                    items_size (cosi.items answer) p first,
                  )
              | inr (x, k) ↦ absurd (ground arith)
            ]
        | inr (x, e) ↦ absurd (ground arith)
      ]

  get_item_ok :
      (c : CosiUri) (kind : Text) (p : Payload) (asked : History)
      → is_empty c.resource_id ≡ false
      → (get_item net urls cosi json env allowed_nodes
          (authenticated (c.node ∷ []))
          (cosi.resolved kind).0
          (cosi.resolved kind).1
          c.resource_id
          asked).0
        ≡ ok p
      → Answered c kind p asked
          (get_item net urls cosi json env allowed_nodes
            (authenticated (c.node ∷ []))
            (cosi.resolved kind).0
            (cosi.resolved kind).1
            c.resource_id
            asked).1
        × (length p.results ≤ max_list_results)
  unfolding get_item
  get_item_ok c kind p asked i h =
      let channel = authenticated (c.node ∷ []) in
      let (ns, type) = cosi.resolved kind in
      elim (Result-cases (env.reply asked channel (cosi_get ns type c.resource_id))) [
        | inl (answer, e) ↦ elim (Result-cases (env.marshal_resource answer)) [
          | inl (item, k) ↦
              let same : p ≡ record { results = item ∷ []; truncated = false } = ground arith in
              (inr (i, answer, rw (e, k) refl, e, item, k, same), ground arith)
          | inr (x, k) ↦ absurd (ground arith)
        ]
        | inr (x, e) ↦ absurd (ground arith)
      ]

  payload_of : CosiUri → Text → M ReadError Payload
  unfolding list_items get_item
  payload_of c kind =
      let channel = authenticated (c.node ∷ []) in
      let (ns, type) = cosi.resolved kind in
      if is_empty c.resource_id
      then list_items net urls cosi json env allowed_nodes channel ns type
      else get_item net urls cosi json env allowed_nodes channel ns type c.resource_id

  payload_of-ok :
      (c : CosiUri) (kind : Text) (p : Payload) (asked : History)
      → (payload_of c kind asked).0 ≡ ok p
      → Answered c kind p asked (payload_of c kind asked).1 × (length p.results ≤ max_list_results)
  unfolding payload_of
  payload_of-ok c kind p asked =
      if_cases {A = M ReadError Payload}
        (λ m.
          (m asked).0 ≡ ok p
          → Answered c kind p asked (m asked).1 × (length p.results ≤ max_list_results))
        (is_empty c.resource_id) _ _ (list_items_ok c kind p asked) (get_item_ok c kind p asked)

  printed :
      (text : Text) (r : Result ReadError Payload × History)
      → (continue (λ p. lift json_failed (json.payload p)) r).0 ≡ ok text
      → (p : Payload) × (r.0 ≡ ok p)
        × (json.payload p ≡ ok text)
        × ((continue (λ p. lift json_failed (json.payload p)) r).1 ≡ r.1)
  printed text (ok p, hist) h = elim (Result-cases (json.payload p)) [
    | inl (t, e) ↦ (p, refl, ground arith, rw e refl)
    | inr (x, e) ↦ absurd (ground arith)
  ]
  printed text (err e, hist) h = cc

  -- How the text came about.
  abbrev pub ReadAs : Text → Text → History → History → Type 0
  ReadAs uri text after before =
      (c : CosiUri) × (parse_cosi_uri urls uri ≡ ok c)
      × (check_node net allowed_nodes c.node ≡ ok tt)
      × (kind : Text) × (p : Payload) × (let channel = authenticated (c.node ∷ []) in
          let resolving = resolve_kind c.namespace c.resource_type in
          (env.reply before channel resolving ≡ ok kind)
          × Answered c kind p (rpc channel resolving ∷ before) after)
      × (length p.results ≤ max_list_results)
      × (json.payload p ≡ ok text)

  -- A client that is answered gets the JSON of at most a hundred items. Without a resource ID they are
  -- the first resources of the list that the named node answered, marshalled and in order, and the
  -- truncation flag tells exactly whether there are more; with one, it is that resource. The
  -- allowlist permits the node, and the run made two calls, both to it: the resolution of the kind,
  -- and the list or the read.
  pub read_cosi_capped :
      (uri text : Text) (hist : History)
      → (handle_cosi_resource net urls cosi json env allowed_nodes uri hist).0 ≡ ok text
      → ReadAs uri text (handle_cosi_resource net urls cosi json env allowed_nodes uri hist).1 hist
  unfolding handle_cosi_resource read_resource payload_of
  read_cosi_capped uri text hist h = elim (Result-cases (parse_cosi_uri urls uri)) [
    | inr (x, e) ↦ absurd (ground arith)
    | inl (c, e) ↦ elim (with_nodes_cases net allowed_nodes (c.node ∷ [])) [
      | inr (x, q) ↦ absurd (ground arith)
      | inl (q, permitted) ↦
          let channel = authenticated (c.node ∷ []) in
          let resolving = resolve_kind c.namespace c.resource_type in
          elim (Result-cases (env.reply hist channel resolving)) [
            | inr (x, k) ↦ absurd (ground arith)
            | inl (kind, k) ↦
                let (p, ran, shown, same) =
                  printed text (payload_of c kind (rpc channel resolving ∷ hist))
                    (rw (e, q, k) at h) in
                let (answered, size) = payload_of-ok c kind p (rpc channel resolving ∷ hist) ran in
                (c, e, permitted.0, kind, p, (k, rw (e, q, k, same) answered), size, shown)
          ]
    ]
  ]
