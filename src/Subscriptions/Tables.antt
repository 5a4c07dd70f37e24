-- ===== src/Subscriptions/Tables.antt =====
-- The tables of subscriptions and sessions, and the states that a manager can reach.
use talos_mcp_server.CosiUri.{Urls, CosiUri, parse_cosi_uri}
use talos_mcp_server.Common.{
  ℕ, ◌≡◌, refl, ◌⊎◌, inl, inr, Bool, true, false, not, ◌&&◌, ◌||◌, Option, none, some, List, [],
  ◌∷◌, arith, if◌then◌else◌, Bool-cases, Option-cases, Result-cases, Text, Result, ok, err,
}
use talos_mcp_server.Text.{text_eq, text_eq_iff}
use talos_mcp_server.Net.{Net}
use talos_mcp_server.Nodes.{NodeAllowlist, check_node}
use talos_mcp_server.Subscriptions.{
  Subscription, Session, Manager, new_manager, allowed_types, SubscribeError, invalid_uri,
  node_refused, unresolved, not_subscribable, member, find_sub, remove_sub, uris_of, drop_session,
  put_session, delete_uri, insert_uri, open_subscription, subscribe, forget_uri, unsubscribe,
  collect, cleanup_session,
}

unfoldable pub is_open : Option ℕ → Bool
is_open none = false
is_open (some handle) = true

pub find-remove_sub :
    (xs : List Subscription) (s u s' u' : Text)
    → is_open (find_sub (remove_sub s u xs) s' u')
      ≡ (is_open (find_sub xs s' u') && not (text_eq s s' && text_eq u u'))
unfolding find_sub remove_sub is_open
find-remove_sub [] s u s' u' = refl
find-remove_sub (x ∷ xs) s u s' u' = ground (
  arith,
  find-remove_sub xs s u s' u',
  text_eq_iff s x.session,
  text_eq_iff u x.uri,
  text_eq_iff s' x.session,
  text_eq_iff u' x.uri,
  text_eq_iff s s',
  text_eq_iff u u',
)

uris_of-drop_session :
    (es : List Session) (s s' : Text)
    → uris_of (drop_session s es) s' ≡ (if text_eq s s' then [] else uris_of es s')
unfolding uris_of drop_session
uris_of-drop_session [] s s' = ground arith
uris_of-drop_session (e ∷ es) s s' =
    ground (
      arith,
      uris_of-drop_session es s s',
      text_eq_iff s e.id,
      text_eq_iff s' e.id,
      text_eq_iff s s',
    )

uris_of-put_session :
    (es : List Session) (s s' : Text) (us : List Text)
    → uris_of (put_session s us es) s' ≡ (if text_eq s s' then us else uris_of es s')
unfolding uris_of put_session
uris_of-put_session es s s' us =
    ground (arith, uris_of-drop_session es s s', text_eq_iff s s', text_eq_iff s' s)

member-insert_uri :
    (us : List Text) (u u' : Text) → member u' (insert_uri u us) ≡ (text_eq u u' || member u' us)
unfolding member insert_uri
member-insert_uri us u u' = ground (arith, text_eq_iff u u', text_eq_iff u' u)

member-delete_uri :
    (us : List Text) (u u' : Text)
    → member u' (delete_uri u us) ≡ (member u' us && not (text_eq u u'))
unfolding member delete_uri
member-delete_uri [] u u' = refl
member-delete_uri (v ∷ vs) u u' =
    ground (arith, member-delete_uri vs u u', text_eq_iff u v, text_eq_iff u' v, text_eq_iff u u')

uris_of-forget_uri :
    (es : List Session) (s u s' : Text)
    → uris_of (forget_uri s u es) s'
      ≡ (if text_eq s s' then delete_uri u (uris_of es s) else uris_of es s')
uris_of-forget_uri es s u s' =
    ground (
      arith,
      uris_of-drop_session es s s',
      uris_of-put_session es s s' (delete_uri u (uris_of es s)),
    )

find_sub_cong :
    (xs : List Subscription) (s u s' u' : Text)
    → text_eq s s' ≡ true
    → text_eq u' u ≡ true
    → find_sub xs s u ≡ find_sub xs s' u'
find_sub_cong xs s u s' u' p q = cc ((text_eq_iff s s').0 p, (text_eq_iff u' u).0 q)

pub find-collect :
    (us : List Text) (s : Text) (cancels : List ℕ) (xs : List Subscription) (s' u' : Text)
    → is_open (find_sub (collect s us cancels xs).1 s' u')
      ≡ (is_open (find_sub xs s' u') && not (text_eq s s' && member u' us))
unfolding collect member is_open
find-collect [] s cancels xs s' u' = ground arith
find-collect (u ∷ us) s cancels xs s' u' = elim (Option-cases (find_sub xs s u)) [
  | inl e ↦
      rw (e, collect)
        (ground (
          arith,
          find-collect us s cancels xs s' u',
          find_sub_cong xs s u s' u',
          e,
          text_eq_iff s s',
          text_eq_iff u' u,
        ))
  | inr (handle, e) ↦
      rw (e, collect)
        (ground (
          arith,
          find-collect us s (handle ∷ cancels) (remove_sub s u xs) s' u',
          find-remove_sub xs s u s' u',
          text_eq_iff u u',
          text_eq_iff u' u,
        ))
]

-- A subscription is open under a key exactly if the session's set holds its URI.
pub Linked : Manager → Type 0
Linked m = (s u : Text) → is_open (find_sub m.subs s u) ≡ member u (uris_of m.sessions s)

open-Linked :
    (m : Manager) (s u : Text) (c : CosiUri) (canonical : Text)
    → Linked m
    → Linked (open_subscription m s u c canonical)
unfolding Linked open_subscription is_open
open-Linked m s u c canonical h s' u' = elim (Option-cases (find_sub m.subs s u)) [
  | inr (handle, e) ↦ rw (e, open_subscription) (h s' u')
  | inl e ↦
      rw (e, open_subscription)
        (unfold find_sub in
          ground (
            arith,
            h s' u',
            uris_of-put_session m.sessions s s' (insert_uri u (uris_of m.sessions s)),
            member-insert_uri (uris_of m.sessions s) u u',
            text_eq_iff s s',
            text_eq_iff s' s,
            text_eq_iff u u',
            text_eq_iff u' u,
          ))
]

unsubscribe-Linked : (m : Manager) (s u : Text) → Linked m → Linked (unsubscribe m s u)
unfolding Linked unsubscribe
unsubscribe-Linked m s u h s' u' = elim (Option-cases (find_sub m.subs s u)) [
  | inl e ↦ rw (e, unsubscribe) (h s' u')
  | inr (handle, e) ↦
      rw (e, unsubscribe)
        (ground (
          arith,
          h s' u',
          find-remove_sub m.subs s u s' u',
          uris_of-forget_uri m.sessions s u s',
          member-delete_uri (uris_of m.sessions s) u u',
          text_eq_iff s s',
        ))
]

cleanup-Linked : (m : Manager) (s : Text) → Linked m → Linked (cleanup_session m s)
unfolding Linked cleanup_session member
cleanup-Linked m s h s' u' = ground (
  arith,
  h s' u',
  find-collect (uris_of m.sessions s) s [] m.subs s' u',
  uris_of-drop_session m.sessions s s',
  text_eq_iff s s',
)

module _ (net : Net) (urls : Urls) (allow : Option NodeAllowlist) where
  subscribe-cases :
      (resolve : Text → Text → Result Text Text) (m : Manager) (s u : Text)
      → ((e : SubscribeError) × (subscribe net urls allow resolve m s u ≡ (err e, m)))
        ⊎ ((c : CosiUri) × (canonical : Text) × (parse_cosi_uri urls u ≡ ok c)
            × (check_node net allow c.node ≡ ok tt)
            × (member canonical allowed_types ≡ true)
            × (subscribe net urls allow resolve m s u
                ≡ (ok tt, open_subscription m s u c canonical)))
  unfolding subscribe
  subscribe-cases resolve m s u = elim (Result-cases (parse_cosi_uri urls u)) [
    | inr (e, p) ↦ inl (invalid_uri e, rw p refl)
    | inl (c, p) ↦ elim (Result-cases (check_node net allow c.node)) [
      | inr (e, q) ↦ inl (node_refused e, rw (p, q) refl)
      | inl (v, q) ↦ elim (Result-cases (resolve c.namespace c.resource_type)) [
        | inr (e, r) ↦ inl (unresolved e, rw (p, q, r) refl)
        | inl (canonical, r) ↦ elim (Bool-cases (member canonical allowed_types)) [
          | inr f ↦ inl (not_subscribable canonical, rw (p, q, r, f) refl)
          | inl f ↦ inr (c, canonical, p, q, f, rw (p, q, r, f) refl)
        ]
      ]
    ]
  ]

  -- What can happen to a manager: calls of its clients, each with its own answer of the cluster, and
  -- sessions that end.
  pub data Reachable : Manager → Type 0 where
    started : Reachable new_manager
    subscribed :
        {m : Manager} (resolve : Text → Text → Result Text Text) (s u : Text)
        → Reachable m
        → Reachable (subscribe net urls allow resolve m s u).1
    unsubscribed : {m : Manager} (s u : Text) → Reachable m → Reachable (unsubscribe m s u)
    ended : {m : Manager} (s : Text) → Reachable m → Reachable (cleanup_session m s)

  subscribe-Linked :
      (resolve : Text → Text → Result Text Text) (m : Manager) (s u : Text)
      → Linked m
      → Linked (subscribe net urls allow resolve m s u).1
  subscribe-Linked resolve m s u h = elim (subscribe-cases resolve m s u) [
    | inl (e, p) ↦ rw p h
    | inr (c, canonical, _, _, _, p) ↦ rw p (open-Linked m s u c canonical h)
  ]

  reach-Linked : {m : Manager} → Reachable m → Linked m
  unfolding Linked is_open find_sub member uris_of
  reach-Linked started = λ s u. refl
  reach-Linked (subscribed {m} resolve t v r) = subscribe-Linked resolve m t v (reach-Linked r)
  reach-Linked (unsubscribed {m} t v r) = unsubscribe-Linked m t v (reach-Linked r)
  reach-Linked (ended {m} t r) = cleanup-Linked m t (reach-Linked r)

  -- In every reachable state of the manager, a subscription is open under a session and a URI exactly
  -- if the session's set holds the URI.
  pub Reachable-Linked :
      {m : Manager} (s u : Text)
      → Reachable m
      → is_open (find_sub m.subs s u) ≡ member u (uris_of m.sessions s)
  unfolding Linked
  Reachable-Linked s u r = reach-Linked r s u
