-- ===== src/Resources/Confined.antt =====
-- What the resource handlers of internal/resources/cosi.go and static.go ask of the nodes.
use talos_mcp_server.Common.{
  ◌≡◌, refl, ◌⊎◌, inl, inr, Option, [], ◌∷◌, if_cases, Result-cases, Text, is_empty, ok,
}
use talos_mcp_server.Net.{Net}
use talos_mcp_server.Nodes.{NodeAllowlist, check_node}
use talos_mcp_server.CosiUri.{Urls, CosiUri, parse_cosi_uri}
use talos_mcp_server.Tools.Effect.{
  History, M, lift, call, with_nodes_cases, Channel, Env, resolve_kind, cosi_list, cosi_get,
  authenticated,
}
use talos_mcp_server.Tools.Effect.Reads.{
  OnlyReads, Reading, bind-Reading, call-Reading, lift-Reading,
}
use talos_mcp_server.Tools.Queries.{Cosi}
use talos_mcp_server.Resources.{
  ReadError, Json, Payload, collect_items, not_found, get_item, list_items, read_resource,
  handle_cosi_resource, list_failed, resource_unmarshalled, json_failed,
}

module _ (net : Net) (urls : Urls) (cosi : Cosi) (json : Json) (env : Env)
    (allowed_nodes : Option NodeAllowlist) where
  get_item-Reading :
      (channel : Channel) (ns type id : Text)
      → Reading channel (get_item net urls cosi json env allowed_nodes channel ns type id)
  unfolding get_item Reading
  get_item-Reading channel ns type id =
      bind-Reading channel (call env not_found channel (cosi_get ns type id)) _
        (call-Reading env not_found channel (cosi_get ns type id) refl)
        (λ r.
          bind-Reading channel (lift resource_unmarshalled (env.marshal_resource r)) _
            (lift-Reading channel resource_unmarshalled (env.marshal_resource r))
            (λ d hist. ([], refl, tt)))

  list_items-Reading :
      (channel : Channel) (ns type : Text)
      → Reading channel (list_items net urls cosi json env allowed_nodes channel ns type)
  unfolding list_items
  list_items-Reading channel ns type =
      bind-Reading channel (call env list_failed channel (cosi_list ns type)) _
        (call-Reading env list_failed channel (cosi_list ns type) refl)
        (λ rs.
          lift-Reading channel resource_unmarshalled
            (collect_items env.marshal_resource [] (cosi.items rs)))

  read_resource-Reading :
      (c : CosiUri) (channel : Channel)
      → Reading channel (read_resource net urls cosi json env allowed_nodes c channel)
  unfolding read_resource
  read_resource-Reading c channel =
      bind-Reading channel (call env not_found channel (resolve_kind c.namespace c.resource_type)) _
        (call-Reading env not_found channel (resolve_kind c.namespace c.resource_type) refl)
        (λ kind.
          bind-Reading channel _ (λ payload. lift json_failed (json.payload payload))
            (if_cases {A = M ReadError Payload} (Reading {A = Payload} channel)
              (is_empty c.resource_id) _ _
              (λ e. list_items-Reading channel (cosi.resolved kind).0 (cosi.resolved kind).1)
              (λ e.
                get_item-Reading channel (cosi.resolved kind).0 (cosi.resolved kind).1
                  c.resource_id))
            (λ payload. lift-Reading channel json_failed (json.payload payload)))

  -- The URI names a permitted node, and since then only that node was asked, and only to read.
  abbrev Confined : Text → History → History → Type 0
  Confined uri after before =
      (c : CosiUri) × (parse_cosi_uri urls uri ≡ ok c)
      × (check_node net allowed_nodes c.node ≡ ok tt)
      × OnlyReads (authenticated (c.node ∷ [])) after before

  -- Reading a resource asks nothing of any node, or only the node that its URI names, which the
  -- allowlist permits, and only to read.
  read_cosi-Confined :
      (uri : Text) (hist : History)
      → let after = (handle_cosi_resource net urls cosi json env allowed_nodes uri hist).1 in
        (after ≡ hist) ⊎ Confined uri after hist
  unfolding handle_cosi_resource Reading
  read_cosi-Confined uri hist = elim (Result-cases (parse_cosi_uri urls uri)) [
    | inr (x, e) ↦ inl (rw e refl)
    | inl (c, e) ↦ elim (with_nodes_cases net allowed_nodes (c.node ∷ [])) [
      | inr (x, q) ↦ inl (rw (e, q) refl)
      | inl (q, p) ↦
          inr (c, e, p.0, rw (e, q) (read_resource-Reading c (authenticated (c.node ∷ [])) hist))
    ]
  ]
