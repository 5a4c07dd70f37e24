-- ===== src/Subscriptions/Teardown.antt =====
-- How subscriptions end: by unsubscribing, and with their session.
use talos_mcp_server.CosiUri.{Urls}
use talos_mcp_server.Common.{
  ℕ, ◌≡◌, refl, sym, ap, ◌∙◌, inl, inr, true, false, not, ◌&&◌, Option, some, List, [], ◌∷◌, ◌++◌,
  arith, Bool-cases, Option-cases, Text, All, In, In-append_left,
}
use talos_mcp_server.Text.{text_eq, text_eq_iff}
use talos_mcp_server.Net.{Net}
use talos_mcp_server.Nodes.{NodeAllowlist}
use talos_mcp_server.Subscriptions.{
  Subscription, Manager, member, find_sub, remove_sub, uris_of, unsubscribe, collect,
  cleanup_session,
}
use talos_mcp_server.Subscriptions.Tables.{
  is_open, find-remove_sub, find-collect, Reachable, Reachable-Linked,
}

find-remove_other :
    (xs : List Subscription) (s v u : Text)
    → text_eq u v ≡ false
    → find_sub (remove_sub s v xs) s u ≡ find_sub xs s u
unfolding find_sub remove_sub
find-remove_other [] s v u h = refl
find-remove_other (x ∷ xs) s v u h =
    ground (
      arith,
      find-remove_other xs s v u h,
      text_eq_iff u v,
      text_eq_iff u x.uri,
      text_eq_iff v x.uri,
    )

find-remove_found :
    (xs : List Subscription) (s v u : Text) (handle : ℕ)
    → find_sub (remove_sub s v xs) s u ≡ some handle
    → find_sub xs s u ≡ some handle
unfolding is_open
find-remove_found xs s v u handle h = elim (Bool-cases (text_eq u v)) [
  | inl q ↦ absurd (
      ground (
        arith,
        h,
        q,
        find-remove_sub xs s v s u,
        text_eq_iff s s,
        text_eq_iff u v,
        text_eq_iff v u,
      ))
  | inr q ↦ sym (find-remove_other xs s v u q) ∙ h
]

-- Only watchers of the session's own subscriptions are collected.
collect-All :
    (P : ℕ → Type 0) (us : List Text) (s : Text) (cancels : List ℕ) (xs : List Subscription)
    → All P cancels
    → ((v : Text) (w : ℕ) → find_sub xs s v ≡ some w → P w)
    → All P (collect s us cancels xs).0
unfolding collect
collect-All P [] s cancels xs a own = a
collect-All P (v ∷ us) s cancels xs a own = elim (Option-cases (find_sub xs s v)) [
  | inl e ↦ rw (e, collect) (collect-All P us s cancels xs a own)
  | inr (w, e) ↦
      rw (e, collect)
        (collect-All P us s (w ∷ cancels) (remove_sub s v xs) (own v w e, a)
          (λ u k f. own u k (find-remove_found xs s v u k f)))
]

collect_keeps :
    (us : List Text) (s : Text) (cancels : List ℕ) (xs : List Subscription) (handle : ℕ)
    → In handle cancels
    → In handle (collect s us cancels xs).0
unfolding collect
collect_keeps [] s cancels xs handle i = i
collect_keeps (v ∷ us) s cancels xs handle i = elim (Option-cases (find_sub xs s v)) [
  | inl e ↦ rw (e, collect) (collect_keeps us s cancels xs handle i)
  | inr (w, e) ↦
      rw (e, collect) (collect_keeps us s (w ∷ cancels) (remove_sub s v xs) handle (inr i))
]

collect_cancels :
    (us : List Text) (s u : Text) (cancels : List ℕ) (xs : List Subscription) (handle : ℕ)
    → find_sub xs s u ≡ some handle
    → member u us ≡ true
    → In handle (collect s us cancels xs).0
unfolding collect member
collect_cancels [] s u cancels xs handle h i = cc
collect_cancels (v ∷ us) s u cancels xs handle h i = elim (Bool-cases (text_eq u v)) [
  | inl q ↦
      let found : find_sub xs s v ≡ some handle =
        ap (find_sub xs s) (sym ((text_eq_iff u v).0 q)) ∙ h in
      rw (found, collect)
        (collect_keeps us s (handle ∷ cancels) (remove_sub s v xs) handle (inl refl))
  | inr q ↦ elim (Option-cases (find_sub xs s v)) [
    | inl e ↦ rw (e, collect) (collect_cancels us s u cancels xs handle h (ground arith))
    | inr (w, e) ↦
        rw (e, collect)
          (collect_cancels us s u (w ∷ cancels) (remove_sub s v xs) handle
            (find-remove_other xs s v u q ∙ h) (ground arith))
  ]
]

module _ (net : Net) (urls : Urls) (allow : Option NodeAllowlist) where
  -- When a session of a reachable manager ends, each of its subscriptions is gone and its watcher
  -- cancelled, those of other sessions stay open, and no watcher but those of its subscriptions is
  -- cancelled.
  pub cleanup_session_clears :
      {m : Manager} (s u s' u' : Text) (handle : ℕ)
      → Reachable net urls allow m
      → find_sub m.subs s u ≡ some handle
      → In handle (cleanup_session m s).cancelled
        × (is_open (find_sub (cleanup_session m s).subs s' u')
            ≡ (is_open (find_sub m.subs s' u') && not (text_eq s s')))
        × (ended : List ℕ) × ((cleanup_session m s).cancelled ≡ ended ++ m.cancelled)
        × All (λ w. (v : Text) × (find_sub m.subs s v ≡ some w)) ended
  unfolding cleanup_session is_open
  cleanup_session_clears {m} s u s' u' handle r h =
      let us = uris_of m.sessions s in
      let listed : member u us ≡ true = ground (arith, Reachable-Linked net urls allow s u r) in
      (
        In-append_left handle (collect s us [] m.subs).0 m.cancelled
            (collect_cancels us s u [] m.subs handle h listed),
        ground (
          arith,
          find-collect us s [] m.subs s' u',
          Reachable-Linked net urls allow s' u' r,
          text_eq_iff s s',
        ),
        (collect s us [] m.subs).0,
        refl,
        collect-All (λ w. (v : Text) × (find_sub m.subs s v ≡ some w)) us s [] m.subs tt
            (λ v w e. (v, e)),
      )

-- Once its watcher has been cancelled by unsubscribing, a subscription is gone and every other one
-- stays open.
unsubscribe_clears :
    (m : Manager) (s u s' u' : Text) (handle : ℕ)
    → find_sub m.subs s u ≡ some handle
    → In handle (unsubscribe m s u).cancelled
      × (is_open (find_sub (unsubscribe m s u).subs s' u')
          ≡ (is_open (find_sub m.subs s' u') && not (text_eq s s' && text_eq u u')))
unfolding unsubscribe
unsubscribe_clears m s u s' u' handle h =
    rw (h, unsubscribe) (inl refl, find-remove_sub m.subs s u s' u')
