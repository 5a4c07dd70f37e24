-- ===== src/VersionCache/Sequential.antt =====
-- The sequential cache, and what ties the interleaved one to it.
use talos_mcp_server.Common.{ℕ, ◌≡◌, Bool, true, false, Option, none, some, List, [], ◌∷◌, In}
use talos_mcp_server.Version.{TalosVersion}
use talos_mcp_server.VersionCache.{
  Event, Pc, Cache, hit, asked, stored, failed, cleared, reading, draining, draining_clear,
  checking, fetching, clearing,
}

-- The version fetched last, unless it was invalidated since.
abbrev pub known : List Event → Option TalosVersion
known [] = none
known (stored g v ∷ h) = some v
known (cleared g ∷ h) = none
known (hit g v ∷ h) = known h
known (asked g ∷ h) = known h
known (failed g e ∷ h) = known h

-- The goroutine whose fetch is under way.
abbrev pub asking : List Event → Option ℕ
asking [] = none
asking (asked g ∷ h) = some g
asking (stored g v ∷ h) = none
asking (failed g e ∷ h) = none
asking (hit g v ∷ h) = asking h
asking (cleared g ∷ h) = asking h

-- What a sequential cache may do: it answers with the version that is known, asks only if none is and
-- no other fetch is under way, and is not invalidated during a fetch.
abbrev pub Legal : List Event → Type 0
Legal [] = Unit
Legal (hit g v ∷ h) = (known h ≡ some v) × Legal h
Legal (asked g ∷ h) = (known h ≡ none) × (asking h ≡ none) × Legal h
Legal (stored g v ∷ h) = (known h ≡ none) × (asking h ≡ some g) × Legal h
Legal (failed g e ∷ h) = (asking h ≡ some g) × Legal h
Legal (cleared g ∷ h) = (asking h ≡ none) × Legal h

-- Between the first step of Lock and Unlock.
abbrev pub holds : Pc → Bool
holds draining = true
holds draining_clear = true
holds checking = true
holds fetching = true
holds clearing = true
holds _ = false

abbrev pub fetches : Pc → Bool
fetches fetching = true
fetches _ = false

abbrev pub reads : Pc → Bool
reads reading = true
reads _ = false

pub record Inv (s : Cache) : Type 0 where
  pub legal : Legal s.history
  pub cached : s.version_cached ≡ known s.history
  pub owner : (g : ℕ) → holds (s.pc g) ≡ true → s.writer ≡ some g
  pub held : (w : ℕ) → s.writer ≡ some w → holds (s.pc w) ≡ true
  pub asks : (g : ℕ) → fetches (s.pc g) ≡ true → asking s.history ≡ some g
  pub asked_by : (w : ℕ) → asking s.history ≡ some w → fetches (s.pc w) ≡ true
  pub unknown : (w : ℕ) → asking s.history ≡ some w → s.version_cached ≡ none
  pub reader : (g : ℕ) → In g s.readers → reads (s.pc g) ≡ true
