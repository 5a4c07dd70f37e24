-- ===== src/Tools/Etcd/Quorum.antt =====
-- What the probe of etcd's quorum counts.
use talos_mcp_server.Common.{
  ℕ, suc, ◌≤◌, ◌≡◌, refl, ap, ◌∙◌, inl, inr, Bool, true, false, ◌||◌, Option, none, some, List, [],
  ◌∷◌, arith, ◌==◌, if◌then◌else◌, Bool-cases, if_cases, Result-cases, Text, length, is_empty, In,
  Result, ok, err,
}
use talos_mcp_server.Net.{Net}
use talos_mcp_server.Nodes.{NodeError, with_nodes}
use talos_mcp_server.Tools.Effect.{Handlers, with_nodes_cases}
use talos_mcp_server.Tools.Etcd.{
  FetchError, PreflightError, fetch_refused, judge_members, fetch_failed, has_id, see, seen_ids,
  fetch_etcd_member_count, count_healthy_etcd_peers, preflight_etcd_quorum,
}

-- No member twice.
abbrev pub Distinct : List ℕ → Type 0
Distinct [] = Unit
Distinct (id ∷ ids) = (has_id id ids ≡ false) × Distinct ids

-- Whether some message names the member.
pub occurs : ℕ → List (List ℕ) → Bool
occurs id [] = false
occurs id (m ∷ messages) = has_id id m || occurs id messages

see-Distinct : (seen ids : List ℕ) → Distinct seen → Distinct (see seen ids)
unfolding see
see-Distinct seen [] d = d
see-Distinct seen (id ∷ ids) d =
    see-Distinct (if has_id id seen then seen else id ∷ seen) ids
      (if_cases Distinct (has_id id seen) _ _ (λ _. d) (λ f. (f, d)))

has_id-see : (x : ℕ) (seen ids : List ℕ) → has_id x (see seen ids) ≡ has_id x seen || has_id x ids
unfolding see has_id
has_id-see x seen [] = ground arith
has_id-see x seen (id ∷ ids) =
    let ih = has_id-see x (if has_id id seen then seen else id ∷ seen) ids in
    ih
    ∙ if_cases (λ s. has_id x s || has_id x ids ≡ has_id x seen || (x == id || has_id x ids))
        (has_id id seen) _ _
        (λ t. elim (Bool-cases (x == id)) [
          | inl e ↦
              let same : x ≡ id = ground arith in
              let there : has_id x seen ≡ true = ap (λ y. has_id y seen) same ∙ t in ground arith
          | inr e ↦ ground arith
        ])
        (λ f. ground arith)

seen_ids-Distinct :
    (seen : List ℕ) (messages : List (List ℕ)) → Distinct seen → Distinct (seen_ids seen messages)
unfolding seen_ids
seen_ids-Distinct seen [] d = d
seen_ids-Distinct seen (m ∷ ms) d = seen_ids-Distinct (see seen m) ms (see-Distinct seen m d)

has_id-seen_ids :
    (x : ℕ) (seen : List ℕ) (messages : List (List ℕ))
    → has_id x (seen_ids seen messages) ≡ has_id x seen || occurs x messages
unfolding seen_ids occurs
has_id-seen_ids x seen [] = ground arith
has_id-seen_ids x seen (m ∷ ms) =
    let ih = has_id-seen_ids x (see seen m) ms in let one = has_id-see x seen m in ground arith

module _ (net : Net) (h : Handlers) where
  -- The number is that of the different members, at least one, that a permitted node has listed.
  abbrev pub Counted : (ℕ → Text → Result Text (List (List ℕ))) → List Text → ℕ → Type 0
  Counted members nodes n =
      (node : Text) × (past : ℕ) × (messages : List (List ℕ)) × (ids : List ℕ) × In node nodes
      × (with_nodes net [] h.allowed_nodes (node ∷ []) ≡ ok (node ∷ []))
      × (members past node ≡ ok messages)
      × Distinct ids
      × ((x : ℕ) → has_id x ids ≡ occurs x messages)
      × (1 ≤ n)
      × (n ≡ length ids)

  judge-Counted :
      (members : ℕ → Text → Result Text (List (List ℕ))) (past : ℕ) (node : Text)
      (nodes : List Text) (n : ℕ) (t : Result NodeError (List Text))
      (r : Result Text (List (List ℕ))) (next : Option FetchError → Result PreflightError ℕ)
      (last : Option FetchError)
      → with_nodes net [] h.allowed_nodes (node ∷ []) ≡ t
      → members past node ≡ r
      → ((l : Option FetchError) → next l ≡ ok n → Counted members (node ∷ nodes) n)
      → judge_members t r next last ≡ ok n
      → Counted members (node ∷ nodes) n
  unfolding judge_members occurs has_id
  judge-Counted members past node nodes n (err e) r next last w q later p =
      later (some (fetch_refused e)) p
  judge-Counted members past node nodes n (ok t) (err e) next last w q later p =
      later (some (fetch_failed e)) p
  judge-Counted members past node nodes n (ok t) (ok ms) next last w q later p =
      elim (Bool-cases (is_empty (seen_ids [] ms))) [
        | inl e ↦ later last (rw e at p)
        | inr e ↦
            let size : n ≡ length (seen_ids [] ms) = ground arith in
            let target : with_nodes net [] h.allowed_nodes (node ∷ []) ≡ ok (node ∷ []) =
              ground (arith, with_nodes_cases net h.allowed_nodes (node ∷ [])) in
            let some_member : 1 ≤ n = ground arith in
            (
              node,
              past,
              ms,
              seen_ids [] ms,
              inl refl,
              target,
              q,
              seen_ids-Distinct [] ms tt,
              λ x. has_id-seen_ids x [] ms,
              some_member,
              size,
            )
      ]

  fetch-Counted :
      (members : ℕ → Text → Result Text (List (List ℕ))) (past : ℕ) (last : Option FetchError)
      (nodes : List Text) (n : ℕ)
      → fetch_etcd_member_count net h members past last nodes ≡ ok n
      → Counted members nodes n
  unfolding fetch_etcd_member_count
  fetch-Counted members past last [] n p = cc
  fetch-Counted members past last (node ∷ nodes) n p =
      judge-Counted members past node nodes n (with_nodes net [] h.allowed_nodes (node ∷ []))
        (members past node) (λ l. fetch_etcd_member_count net h members (suc past) l nodes) last
        refl refl
        (λ l e.
          let (m, t, ms, ids, i, w, r, d, o, k, z) = fetch-Counted members (suc past) l nodes n e in
          (m, t, ms, ids, inr i, w, r, d, o, k, z))
        p

  count_healthy-le :
      (responds : ℕ → Text → Bool) (past : ℕ) (nodes : List Text)
      → count_healthy_etcd_peers net h responds past nodes ≤ length nodes
  unfolding count_healthy_etcd_peers
  count_healthy-le responds past [] = omega arith
  count_healthy-le responds past (node ∷ nodes) =
      let rest = count_healthy-le responds (suc past) nodes in ground (arith, rest)

  -- A probe of the quorum that succeeds has counted the different members that a permitted node lists,
  -- at least one, however often its messages repeat them; and at most as many healthy peers as it was
  -- given nodes.
  pub preflight_etcd_quorum_sound :
      (members : ℕ → Text → Result Text (List (List ℕ))) (responds : ℕ → Text → Bool)
      (api_nodes : List Text) (configured healthy : ℕ)
      → preflight_etcd_quorum net h members responds api_nodes ≡ ok (configured, healthy)
      → Counted members api_nodes configured × (healthy ≤ length api_nodes)
  unfolding preflight_etcd_quorum
  preflight_etcd_quorum_sound members responds api_nodes configured healthy p =
      elim (Bool-cases (is_empty api_nodes)) [
        | inl e ↦ absurd (impossible e)
        | inr e ↦ elim (Result-cases (fetch_etcd_member_count net h members 0 none api_nodes)) [
          | inr (f, q) ↦ let r = (rw (e, q) at p) in cc
          | inl (n, q) ↦
              let r = (rw (e, q) at p) in
              let c : n ≡ configured = ground arith in
              let k : count_healthy_etcd_peers net h responds 0 api_nodes ≡ healthy =
                ground arith in
              (
                fetch-Counted members 0 none api_nodes configured (q ∙ ap ok c),
                rw (← k) (count_healthy-le responds 0 api_nodes),
              )
        ]
      ]
    where
      impossible : is_empty api_nodes ≡ true → ⊥
      impossible e = let r = (rw e at p) in cc
