-- ===== src/VersionCache/Legal.antt =====
-- However the goroutines interleave, the cache behaves as one that they use one at a time.
use talos_mcp_server.Common.{ℕ, ◌≡◌, refl, Option, none, some, List, [], ◌∷◌}
use talos_mcp_server.VersionCache.{advance, or_stay, run, new_cache, Cache, Choice}
use talos_mcp_server.VersionCache.Sequential.{known, Legal, Inv}
use talos_mcp_server.VersionCache.Steps.{Kept, dispatch-Kept}

or_stay-Inv : (o : Option Cache) (s : Cache) → Inv s → Kept o → Inv (or_stay o s)
unfolding or_stay
or_stay-Inv none s i k = i
or_stay-Inv (some t) s i k = k

pub run-Inv : (es : List (ℕ × Choice)) (s : Cache) → Inv s → Inv (run es s)
unfolding run advance
run-Inv [] s i = i
run-Inv ((g, c) ∷ es) s i =
    run-Inv es (or_stay (advance g c s) s)
      (or_stay-Inv (advance g c s) s i (dispatch-Kept g s i (s.pc g) c refl))

pub new-Inv : Inv new_cache
new-Inv = record {
  legal = tt;
  cached = refl;
  owner = λ g h. cc;
  held = λ w h. cc;
  asks = λ g h. cc;
  asked_by = λ w h. cc;
  unknown = λ w h. cc;
  reader = λ g h. absurd h;
}

-- Whatever goroutines call GetClusterVersion and InvalidateVersionCache, and however their steps
-- interleave, what they do is legal for a cache that is used by one at a time: each hit returns the
-- version that was fetched last and not invalidated since, a fetch starts only if there is none and no
-- other fetch is under way, none is stored over another, and no invalidation falls into a fetch. The
-- cache holds what this history says is known.
pub run-Legal :
    (es : List (ℕ × Choice))
    → Legal (run es new_cache).history
      × ((run es new_cache).version_cached ≡ known (run es new_cache).history)
run-Legal es = let i = run-Inv es new_cache new-Inv in (i.legal, i.cached)
