-- ===== src/Subscriptions.antt =====
-- internal/subscriptions/manager.go: the tables of subscriptions and sessions, and what a watch
-- forwards.
pub mod Tables
pub mod Teardown
pub mod Watching
mod Tests
use talos_mcp_server.CosiUri.{CosiUri, Urls, UriError, parse_cosi_uri}
use talos_mcp_server.Common.{
  ℕ, zero, suc, ◌+◌, ◌-◌, ◌*◌, ◌/◌, ◌%◌, ◌^◌, ◌≤◌, ◌<◌, ◌≡◌, refl, sym, ap, ◌∙◌, ◌≢◌, ◌↔◌, ◌⊎◌, inl,
  inr, Bool, true, false, not, ◌&&◌, ◌||◌, Option, none, some, List, [], ◌∷◌, ◌++◌, map, append-nil,
  append_assoc, arith, ltb, leb, ◌==◌, if◌then◌else◌, Bool-cases, if_cases, Option-cases, ◌>>=◌,
  is_ok, Result-cases, Text, codes, length, take, drop, length-append, is_empty, All, All-append,
  In, In-append_left, In-append_right, In-append_cases, Result, ok, err,
}
use talos_mcp_server.Text.{
  text_eq, text_eq_iff, text_eq_refl, has_prefix, after_prefix, trim_prefix, has_prefix-append,
  has_prefix_split, contains_byte, Lacks, contains_byte-Lacks, trim_left, trim_right, trim_space,
  to_lower, to_lower_idem,
}
use talos_mcp_server.Text.Parts.{split}
use talos_mcp_server.Net.{
  Ip, v4_in_v6_prefix, is_mapped, to4, cidr_mask, and_bytes, mask_ip, network, or_self, number_mask,
  same_masked, contains, byte_at, is_unspecified, is_loopback, is_link_local_unicast, is_multicast,
  Prefix, IpNet, Net,
}
use talos_mcp_server.Nodes.{NodeAllowlist, NodeError, check_node}

-- An entry of `subs`: its key, and the cancel function as a handle.
pub record Subscription : Type 0 where
  pub session : Text
  pub uri : Text
  pub handle : ℕ

-- An entry of `sessions`.
pub record Session : Type 0 where
  pub id : Text
  pub uris : List Text

-- A watcher goroutine: what it watches, and the nodes that its context targets (`[]`: the default).
pub record Watch : Type 0 where
  pub watch_handle : ℕ
  pub targets : List Text
  pub watched : CosiUri
  pub kind : Text

-- The handles that were given out are those under `next`; `cancelled` are those whose cancel
-- function was called.
pub record Manager : Type 0 where
  pub subs : List Subscription
  pub sessions : List Session
  pub next : ℕ
  pub cancelled : List ℕ
  pub watches : List Watch

abbrev pub new_manager : Manager
new_manager = record { subs = []; sessions = []; next = 0; cancelled = []; watches = [] }

abbrev pub allowed_types : List Text
allowed_types =
    codes "MachineStatuses.runtime.talos.dev"
    ∷ codes "Members.cluster.talos.dev"
    ∷ codes "NodeAddresses.net.talos.dev"
    ∷ codes "Services.v1alpha1.talos.dev"
    ∷ []

pub data SubscribeError : Type 0 where
  invalid_uri : UriError → SubscribeError
  node_refused : NodeError → SubscribeError
  unresolved : Text → SubscribeError
  not_subscribable : Text → SubscribeError

pub member : Text → List Text → Bool
member u [] = false
member u (v ∷ vs) = text_eq u v || member u vs

abbrev pub is_key : Text → Text → Subscription → Bool
is_key s u x = text_eq s x.session && text_eq u x.uri

pub find_sub : List Subscription → Text → Text → Option ℕ
find_sub [] s u = none
find_sub (x ∷ xs) s u = let rest = find_sub xs s u in if is_key s u x then some x.handle else rest

pub remove_sub : Text → Text → List Subscription → List Subscription
remove_sub s u [] = []
remove_sub s u (x ∷ xs) = let rest = remove_sub s u xs in if is_key s u x then rest else x ∷ rest

-- A missing session has no URIs.
pub uris_of : List Session → Text → List Text
uris_of [] s = []
uris_of (e ∷ es) s = let rest = uris_of es s in if text_eq s e.id then e.uris else rest

pub drop_session : Text → List Session → List Session
drop_session s [] = []
drop_session s (e ∷ es) = let rest = drop_session s es in if text_eq s e.id then rest else e ∷ rest

pub put_session : Text → List Text → List Session → List Session
unfolding drop_session
put_session s us es = record { id = s; uris = us } ∷ drop_session s es

pub delete_uri : Text → List Text → List Text
delete_uri u [] = []
delete_uri u (v ∷ vs) = let rest = delete_uri u vs in if text_eq u v then rest else v ∷ rest

insert_uri : Text → List Text → List Text
unfolding member
insert_uri u us = if member u us then us else u ∷ us

-- The part of subscribe behind its checks. The context of the watcher derives from the root context.
pub open_subscription : Manager → Text → Text → CosiUri → Text → Manager
unfolding find_sub put_session uris_of insert_uri
open_subscription m s u c canonical = elim (find_sub m.subs s u) [
  | some handle ↦ m
  | none ↦ record m {
    subs = record { session = s; uri = u; handle = m.next } ∷ m.subs;
    sessions = put_session s (insert_uri u (uris_of m.sessions s)) m.sessions;
    next = suc m.next;
    watches =
        record { watch_handle = m.next; targets = []; watched = c; kind = canonical } ∷ m.watches;
  }
]

abbrev pub in_state :
    {E A : Type 0}
    → Manager
    → Result E A
    → (A → Result E (Unit {0}) × Manager)
    → Result E (Unit {0}) × Manager
in_state m (ok a) f = f a
in_state m (err e) f = (err e, m)

abbrev pub wrap : {D E A : Type 0} → (D → E) → Result D A → Result E A
wrap f (ok a) = ok a
wrap f (err e) = err (f e)

-- ResolveResourceKind answers with the canonical type.
pub subscribe :
    Net
    → Urls
    → Option NodeAllowlist
    → (Text → Text → Result Text Text)
    → Manager
    → Text
    → Text
    → Result SubscribeError (Unit {0}) × Manager
unfolding open_subscription member
subscribe net urls allow resolve m s u = in_state m (wrap invalid_uri (parse_cosi_uri urls u)) λ c.
    in_state m (wrap node_refused (check_node net allow c.node)) λ _.
      in_state m (wrap unresolved (resolve c.namespace c.resource_type)) λ canonical.
        if member canonical allowed_types
        then (ok tt, open_subscription m s u c canonical)
        else (err (not_subscribable canonical), m)

-- The session's URIs without one; a session without URIs is deleted.
abbrev forget_uri : Text → Text → List Session → List Session
forget_uri s u es =
    let us = delete_uri u (uris_of es s) in
    if is_empty us then drop_session s es else put_session s us es

pub unsubscribe : Manager → Text → Text → Manager
unfolding remove_sub delete_uri
unsubscribe m s u = elim (find_sub m.subs s u) [
  | none ↦ m
  | some handle ↦ record m {
    subs = remove_sub s u m.subs;
    sessions = forget_uri s u m.sessions;
    cancelled = handle ∷ m.cancelled;
  }
]

-- The loop of cleanupSession: the cancels that it collects, and the subscriptions left.
pub collect : Text → List Text → List ℕ → List Subscription → List ℕ × List Subscription
collect s [] cancels xs = (cancels, xs)
collect s (u ∷ us) cancels xs = elim (find_sub xs s u) [
  | none ↦ collect s us cancels xs
  | some handle ↦ collect s us (handle ∷ cancels) (remove_sub s u xs)
]

pub cleanup_session : Manager → Text → Manager
unfolding collect
cleanup_session m s =
    let torn_down = collect s (uris_of m.sessions s) [] m.subs in
    record m {
      subs = torn_down.1;
      sessions = drop_session s m.sessions;
      cancelled = torn_down.0 ++ m.cancelled;
    }

pub data EventType : Type 0 where
  bootstrapped errored created updated destroyed noop : EventType

-- An event with the answer of the rate limiter, and what the notification reports: none if no
-- server is bound.
pub record Arrival : Type 0 where
  pub event_type : EventType
  pub allowed : Bool
  pub delivered : Option Bool

deliver : Bool → Option Bool → Bool × ℕ
deliver false d = (true, 0)
deliver true none = (false, 0)
deliver true (some reported) = (true, 1)

-- Whether the goroutine goes on, and how many notifications it sent.
pub forward_event : Arrival → Bool × ℕ
unfolding deliver
forward_event a = elim a.event_type [
  | bootstrapped ↦ (true, 0)
  | errored ↦ (false, 0)
  | noop ↦ (true, 0)
  | created ↦ deliver a.allowed a.delivered
  | updated ↦ deliver a.allowed a.delivered
  | destroyed ↦ deliver a.allowed a.delivered
]

-- What `select` finds: that the watch's context has ended (at an unsubscription, a cleanup or a
-- shutdown), or an event of the channel. If both are there, either may be found.
pub data Wake : Type 0 where
  context_done : Wake
  arrived : Arrival → Wake

-- The loop: what was sent, and whether it is still running.
pub run_watch : List Wake → ℕ × Bool
unfolding forward_event
run_watch [] = (0, true)
run_watch (context_done ∷ later) = (0, false)
run_watch (arrived a ∷ later) =
    let rest = run_watch later in
    if (forward_event a).0
    then ((forward_event a).1 + rest.0, rest.1)
    else ((forward_event a).1, false)
