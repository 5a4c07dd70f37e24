-- ===== src/VersionCache.antt =====
-- The version cache of internal/talos/client.go: GetClusterVersion, InvalidateVersionCache and
-- fetchVersion, run by any number of goroutines, interleaved at the operations on versionMu and at the
-- call of the Version API. As in sync.RWMutex, Lock first keeps out new readers and other writers, and
-- then waits until the readers are gone.
pub mod Sequential
pub mod Steps
pub mod Legal
pub mod Progress
mod Tests
use talos_mcp_server.Common.{
  ℕ, zero, suc, ◌+◌, ◌-◌, ◌*◌, ◌/◌, ◌%◌, ◌^◌, ◌≤◌, ◌<◌, ◌≡◌, refl, sym, ap, ◌∙◌, ◌≢◌, ◌↔◌, ◌⊎◌, inl,
  inr, Bool, true, false, not, ◌&&◌, ◌||◌, Option, none, some, List, [], ◌∷◌, ◌++◌, map, append-nil,
  append_assoc, arith, ltb, leb, ◌==◌, if◌then◌else◌, Bool-cases, if_cases, Option-cases, ◌>>=◌,
  is_ok, Result-cases, Text, codes, length, take, drop, length-append, is_empty, All, All-append,
  In, In-append_left, In-append_right, In-append_cases, Result, ok, err,
}
use talos_mcp_server.Version.{TalosVersion, VersionError, parse}

pub data FetchError : Type 0 where
  fetch_failed : Text → FetchError
  empty_response : FetchError
  bad_tag : VersionError → FetchError

-- What the API answers: an error, or the tags of its messages.
abbrev pub Response : Type 0
Response = Result Text (List Text)

parsed_tag : Result VersionError TalosVersion → Result FetchError TalosVersion
parsed_tag (ok v) = ok v
parsed_tag (err e) = err (bad_tag e)

pub fetch_version : Response → Result FetchError TalosVersion
unfolding parsed_tag
fetch_version (err e) = err (fetch_failed e)
fetch_version (ok []) = err empty_response
fetch_version (ok (tag ∷ tags)) = parsed_tag (parse tag)

-- What goroutines have done, newest first. A hit returns a version from the cache; `stored` returns the
-- one that was fetched.
pub data Event : Type 0 where
  hit : ℕ → TalosVersion → Event
  asked : ℕ → Event
  stored : ℕ → TalosVersion → Event
  failed : ℕ → FetchError → Event
  cleared : ℕ → Event

-- Where a goroutine stands.
pub data Pc : Type 0 where
  idle : Pc
  -- GetClusterVersion before RLock, with the read lock, before Lock, in Lock while readers are left,
  -- with the lock, and in its fetch
  wants_read reading wants_write draining checking fetching : Pc
  -- InvalidateVersionCache before Lock, in Lock while readers are left, and with the lock
  wants_clear draining_clear clearing : Pc

pub record Cache : Type 0 where
  pub version_cached : Option TalosVersion
  -- versionMu: who has called Lock and is not kept waiting by another writer, and who reads
  pub writer : Option ℕ
  pub readers : List ℕ
  pub pc : ℕ → Pc
  pub history : List Event

-- What a goroutine does next; the answer of the API comes from outside.
pub data Choice : Type 0 where
  call_get call_invalidate proceed : Choice
  answer : Response → Choice

abbrev pub update : (ℕ → Pc) → ℕ → Pc → ℕ → Pc
update pc g p j = if j == g then p else pc j

abbrev pub remove : ℕ → List ℕ → List ℕ
remove g [] = []
remove g (r ∷ rs) = let rest = remove g rs in if r == g then rest else r ∷ rest

abbrev pub goto : ℕ → Pc → Cache → Cache
goto g p s = record s { pc = update s.pc g p }

abbrev pub log : Event → Cache → Cache
log e s = record s { history = e ∷ s.history }

-- RLock and RUnlock, Lock and Unlock; `none` waits.
pub r_lock : ℕ → Cache → Option Cache
r_lock g s = elim s.writer [
  | none ↦ some (goto g reading (record s { readers = g ∷ s.readers }))
  | some w ↦ none
]

abbrev pub r_unlock : ℕ → Cache → Cache
r_unlock g s = record s { readers = remove g s.readers }

pub lock : ℕ → Pc → Cache → Option Cache
lock g p s = elim s.writer [ none ↦ some (goto g p (record s { writer = some g })) | some w ↦ none ]

-- The rest of Lock: the readers that were there are gone.
pub drained : ℕ → Pc → Cache → Option Cache
drained g p s = elim s.readers [ [] ↦ some (goto g p s) | r ∷ rs ↦ none ]

abbrev pub unlock : Cache → Cache
unlock s = record s { writer = none }

-- The fast path, under the read lock.
pub read_cache : ℕ → Cache → Cache
read_cache g s = elim s.version_cached [
  | some v ↦ log (hit g v) (goto g idle (r_unlock g s))
  | none ↦ goto g wants_write (r_unlock g s)
]

-- The check is repeated under the lock.
pub check_again : ℕ → Cache → Cache
check_again g s = elim s.version_cached [
  | some v ↦ log (hit g v) (goto g idle (unlock s))
  | none ↦ log (asked g) (goto g fetching s)
]

pub store : ℕ → Result FetchError TalosVersion → Cache → Cache
store g (ok v) s = log (stored g v) (goto g idle (unlock (record s { version_cached = some v })))
store g (err e) s = log (failed g e) (goto g idle (unlock s))

pub invalidate : ℕ → Cache → Cache
invalidate g s = log (cleared g) (goto g idle (unlock (record s { version_cached = none })))

pub dispatch : Pc → Choice → ℕ → Cache → Option Cache
unfolding fetch_version
dispatch idle call_get g s = some (goto g wants_read s)
dispatch idle call_invalidate g s = some (goto g wants_clear s)
dispatch wants_read proceed g s = r_lock g s
dispatch reading proceed g s = some (read_cache g s)
dispatch wants_write proceed g s = lock g draining s
dispatch draining proceed g s = drained g checking s
dispatch checking proceed g s = some (check_again g s)
dispatch fetching (answer r) g s = some (store g (fetch_version r) s)
dispatch wants_clear proceed g s = lock g draining_clear s
dispatch draining_clear proceed g s = drained g clearing s
dispatch clearing proceed g s = some (invalidate g s)
dispatch _ _ g s = none

-- One step of a goroutine, or `none` if it cannot take it now.
pub advance : ℕ → Choice → Cache → Option Cache
unfolding dispatch
advance g c s = dispatch (s.pc g) c g s

pub or_stay : Option Cache → Cache → Cache
or_stay none s = s
or_stay (some t) s = t

-- A schedule: who moves, and how. A step that cannot be taken is skipped.
pub run : List (ℕ × Choice) → Cache → Cache
unfolding or_stay advance
run [] s = s
run ((g, c) ∷ es) s = run es (or_stay (advance g c s) s)

abbrev pub new_cache : Cache
new_cache = record {
  version_cached = none;
  writer = none;
  readers = [];
  pc = λ g. idle;
  history = [];
}
