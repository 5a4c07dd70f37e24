-- ===== src/Subscriptions/Watching.antt =====
-- What a watcher forwards.
use talos_mcp_server.Common.{
  ℕ, suc, ◌≡◌, refl, Bool, true, false, not, none, some, List, [], ◌∷◌, arith, ◌==◌, if◌then◌else◌,
  All,
}
use talos_mcp_server.Subscriptions.{
  Wake, context_done, arrived, bootstrapped, errored, created, updated, destroyed, noop, Arrival,
  forward_event, run_watch, deliver,
}

-- A change of the resource, which the rate limiter lets through.
pub is_change : Arrival → Bool
is_change a = elim a.event_type [
  | created ↦ a.allowed
  | updated ↦ a.allowed
  | destroyed ↦ a.allowed
  | bootstrapped ↦ false
  | errored ↦ false
  | noop ↦ false
]

unfoldable pub is_notified : Wake → Bool
unfolding is_change
is_notified context_done = false
is_notified (arrived a) = is_change a

pub count : (Wake → Bool) → List Wake → ℕ
count p [] = 0
count p (w ∷ later) = let rest = count p later in if p w then suc rest else rest

-- A server is bound, so a notification reports something.
unfoldable pub is_bound : Wake → Bool
is_bound context_done = true
is_bound (arrived a) = elim a.delivered [ none ↦ false | some reported ↦ true ]

is_error : Arrival → Bool
is_error a = elim a.event_type [
  | errored ↦ true
  | bootstrapped ↦ false
  | created ↦ false
  | updated ↦ false
  | destroyed ↦ false
  | noop ↦ false
]

-- The end of the context, or an error.
unfoldable pub is_end : Wake → Bool
unfolding is_error
is_end context_done = true
is_end (arrived a) = is_error a

-- What is found before the first end.
pub before_end : List Wake → List Wake
before_end [] = []
before_end (w ∷ later) = let rest = before_end later in if is_end w then [] else w ∷ rest

forward_cases :
    (a : Arrival)
    → is_bound (arrived a) ≡ true
    → ((forward_event a).0 ≡ not (is_error a))
      × ((forward_event a).1 ≡ (if is_change a then 1 else 0))
unfolding forward_event deliver is_bound is_error is_change
forward_cases a h = ground arith

-- With a server bound, a watcher sends one notification for each change that the rate limiter lets
-- through before its context ends or an error arrives, none for the initial state, and it is still
-- running exactly if its context has not ended and there was no error.
pub run_watch_exact :
    (found : List Wake)
    → All (λ w. is_bound w ≡ true) found
    → ((run_watch found).0 ≡ count is_notified (before_end found))
      × ((run_watch found).1 ≡ (count is_end found == 0))
unfolding run_watch count before_end is_end is_notified
run_watch_exact [] h = (refl, refl)
run_watch_exact (context_done ∷ later) h = (refl, ground arith)
run_watch_exact (arrived a ∷ later) h =
    let (n, f) = run_watch_exact later h.1 in
    let (c, k) = forward_cases a h.0 in (ground arith, ground arith)
