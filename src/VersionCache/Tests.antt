-- ===== src/VersionCache/Tests.antt =====
-- Two goroutines ask for the version at the same time, and one invalidates it.
use talos_mcp_server.Common.{ℕ, ◌≡◌, refl, sym, ◌∙◌, ◌≢◌, some, List, [], ◌∷◌, codes, ok}
use talos_mcp_server.Version.{TalosVersion, parse}
use talos_mcp_server.VersionCache.{
  Response, r_lock, lock, drained, read_cache, check_again, store, dispatch, advance, run,
  new_cache, Cache, Choice, hit, asked, stored, idle, wants_clear, call_get, call_invalidate,
  proceed, answer,
}
use talos_mcp_server.VersionCache.Sequential.{known, Legal}
use talos_mcp_server.VersionCache.Legal.{run-Legal}
use talos_mcp_server.VersionCache.Progress.{never_stuck}

abbrev response : Response
response = ok (codes "v1.9.2" ∷ [])

abbrev v1_9_2 : TalosVersion
v1_9_2 = record { major = 1; minor = 9; patch = 2 }

-- Both pass the fast path; the second finds, under the lock, what the first has fetched.
abbrev race : List (ℕ × Choice)
race =
    (1, call_get)
    ∷ (2, call_get)
    ∷ (1, proceed)
    ∷ (2, proceed)
    ∷ (1, proceed)
    ∷ (1, proceed)
    ∷ (2, proceed)
    ∷ (1, proceed)
    ∷ (1, proceed)
    ∷ (2, proceed)
    ∷ (1, answer response)
    ∷ (2, proceed)
    ∷ (2, proceed)
    ∷ (2, proceed)
    ∷ []

race_history : (run race new_cache).history ≡ hit 2 v1_9_2 ∷ stored 1 v1_9_2 ∷ asked 1 ∷ []
unfolding run parse r_lock read_cache lock drained check_again store
    talos_mcp_server.Text.after_prefix talos_mcp_server.Text.Parts.split
    talos_mcp_server.Text.Parts.before_byte talos_mcp_server.Text.Number.atoi
race_history = refl

run-Legal_example :
    Legal (run race new_cache).history
    × ((run race new_cache).version_cached ≡ known (run race new_cache).history)
run-Legal_example = run-Legal race

-- The first goroutine fetches, the second waits for the lock.
abbrev waiting : List (ℕ × Choice)
waiting =
    (1, call_get)
    ∷ (2, call_invalidate)
    ∷ (1, proceed)
    ∷ (1, proceed)
    ∷ (1, proceed)
    ∷ (1, proceed)
    ∷ (1, proceed)
    ∷ []

distinct : wants_clear ≢ idle
distinct e = cc

waits : (run waiting new_cache).pc 2 ≡ wants_clear
unfolding run dispatch r_lock read_cache lock drained check_again
waits = refl

under_way : (run waiting new_cache).pc 2 ≢ idle
under_way e = distinct (sym waits ∙ e)

never_stuck_example :
    let s = run waiting new_cache in
    (j : ℕ) × (c : Choice) × (t : Cache) × (s.pc j ≢ idle) × (advance j c s ≡ some t)
never_stuck_example = never_stuck waiting 2 under_way
