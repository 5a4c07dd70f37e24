-- ===== src/VersionCache/Progress.antt =====
-- The goroutines that use the cache never wait for one another for ever.
use mathlib.Core.Path.{subst}
use talos_mcp_server.Common.{
  ℕ, ◌≡◌, refl, sym, ◌≢◌, inl, inr, true, none, some, List, [], ◌∷◌, arith, Option-cases, In, err,
}
use talos_mcp_server.VersionCache.{
  fetch_version, goto, r_lock, lock, drained, read_cache, check_again, store, invalidate, dispatch,
  advance, run, new_cache, Pc, Cache, Choice, idle, wants_read, reading, wants_write, draining,
  draining_clear, checking, fetching, wants_clear, clearing, proceed, answer,
}
use talos_mcp_server.VersionCache.Sequential.{holds, reads, Inv}
use talos_mcp_server.VersionCache.Legal.{run-Inv, new-Inv}

abbrev Moves : Cache → Type 0
Moves s = (g : ℕ) × (c : Choice) × (t : Cache) × (s.pc g ≢ idle) × (advance g c s ≡ some t)

-- Who holds the lock, or waits in Lock for readers that are gone, can go on.
holder-Moves : (g : ℕ) (s : Cache) (p : Pc) → s.pc g ≡ p → holds p ≡ true → s.readers ≡ [] → Moves s
unfolding advance dispatch drained
holder-Moves g s draining e h r =
    (g, proceed, goto g checking s, ground (arith, e), ground (arith, e, r))
holder-Moves g s draining_clear e h r =
    (g, proceed, goto g clearing s, ground (arith, e), ground (arith, e, r))
holder-Moves g s checking e h r = (g, proceed, check_again g s, ground (arith, e), rw e refl)
holder-Moves g s fetching e h r =
    (g, answer (err []), store g (fetch_version (err [])) s, ground (arith, e), rw e refl)
holder-Moves g s clearing e h r = (g, proceed, invalidate g s, ground (arith, e), rw e refl)
holder-Moves g s idle e h r = cc
holder-Moves g s wants_read e h r = cc
holder-Moves g s reading e h r = cc
holder-Moves g s wants_write e h r = cc
holder-Moves g s wants_clear e h r = cc

reader-Moves : (g : ℕ) (s : Cache) (p : Pc) → s.pc g ≡ p → reads p ≡ true → Moves s
unfolding advance dispatch
reader-Moves g s reading e h = (g, proceed, read_cache g s, ground (arith, e), rw e refl)
reader-Moves g s idle e h = cc
reader-Moves g s wants_read e h = cc
reader-Moves g s wants_write e h = cc
reader-Moves g s draining e h = cc
reader-Moves g s draining_clear e h = cc
reader-Moves g s checking e h = cc
reader-Moves g s fetching e h = cc
reader-Moves g s wants_clear e h = cc
reader-Moves g s clearing e h = cc

-- With the lock free, each goroutine that is under way can go on.
free-Moves :
    (g : ℕ) (s : Cache) (p : Pc)
    → s.pc g ≡ p
    → p ≢ idle
    → s.writer ≡ none
    → s.readers ≡ []
    → Moves s
unfolding advance dispatch r_lock lock
free-Moves g s idle e n w r = absurd (n refl)
free-Moves g s wants_read e n w r = (
  g,
  proceed,
  goto g reading (record s { readers = g ∷ s.readers }),
  ground (arith, e),
  rw (e, w) refl,
)
free-Moves g s reading e n w r = reader-Moves g s reading e refl
free-Moves g s wants_write e n w r = (
  g,
  proceed,
  goto g draining (record s { writer = some g }),
  ground (arith, e),
  ground (arith, e, w, r),
)
free-Moves g s wants_clear e n w r = (
  g,
  proceed,
  goto g draining_clear (record s { writer = some g }),
  ground (arith, e),
  ground (arith, e, w, r),
)
free-Moves g s draining e n w r = holder-Moves g s draining e refl r
free-Moves g s draining_clear e n w r = holder-Moves g s draining_clear e refl r
free-Moves g s checking e n w r = holder-Moves g s checking e refl r
free-Moves g s fetching e n w r = holder-Moves g s fetching e refl r
free-Moves g s clearing e n w r = holder-Moves g s clearing e refl r

-- No deadlock, although a writer that waits for readers keeps new ones out: whatever has happened, if some goroutine is inside GetClusterVersion or
-- InvalidateVersionCache, then a goroutine that is inside one of them can take its next step.
pub never_stuck :
    (es : List (ℕ × Choice)) (g : ℕ)
    → (run es new_cache).pc g ≢ idle
    → let s = run es new_cache in
      (j : ℕ) × (c : Choice) × (t : Cache) × (s.pc j ≢ idle) × (advance j c s ≡ some t)
never_stuck es g under_way =
    let s : Cache = run es new_cache in
    let i : Inv s = run-Inv es new_cache new-Inv in readers_or_free s i under_way s.readers refl
  where
    readers_or_free : (s : Cache) → Inv s → s.pc g ≢ idle → (rs : List ℕ) → s.readers ≡ rs → Moves s
    readers_or_free s i n [] e = elim (Option-cases s.writer) [
      | inr (w, o) ↦ holder-Moves w s (s.pc w) refl (i.held w o) e
      | inl o ↦ free-Moves g s (s.pc g) refl n o e
    ]
    readers_or_free s i n (r ∷ rs) e =
        reader-Moves r s (s.pc r) refl (i.reader r (subst (In r) (sym e) (inl refl)))
