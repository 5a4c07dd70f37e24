-- ===== src/VersionCache/Steps.antt =====
-- A step of a goroutine keeps the invariant.
use talos_mcp_server.Common.{
  ℕ, ◌≡◌, refl, ◌≢◌, ◌⊎◌, inl, inr, true, false, Option, none, some, List, [], ◌∷◌, arith,
  Option-cases, In, Result, ok, err,
}
use talos_mcp_server.Version.{TalosVersion}
use talos_mcp_server.VersionCache.{
  fetch_version, remove, goto, r_lock, lock, drained, read_cache, check_again, store, invalidate,
  dispatch, FetchError, Pc, Cache, Choice, idle, wants_read, reading, wants_write, draining,
  draining_clear, checking, fetching, wants_clear, clearing, call_get, call_invalidate, proceed,
  answer,
}
use talos_mcp_server.VersionCache.Sequential.{asking, holds, fetches, reads, Inv}

In-remove : (j g : ℕ) (rs : List ℕ) → In j (remove g rs) → In j rs × (j ≢ g)
In-remove j g [] m = absurd m
In-remove j g (r ∷ rs) m = ground (arith, In-remove j g rs)

List-cases : (xs : List ℕ) → (xs ≡ []) ⊎ ((y : ℕ) × (ys : List ℕ) × (xs ≡ y ∷ ys))
List-cases [] = inl refl
List-cases (y ∷ ys) = inr (y, ys, refl)

-- A step that is taken keeps the invariant.
abbrev pub Kept : Option Cache → Type 0
Kept none = Unit
Kept (some t) = Inv t

module _ (g : ℕ) (s : Cache) (i : Inv s) where
  start-Inv : (q : Pc) → s.pc g ≡ idle → (holds q ≡ false) × (reads q ≡ false) → Inv (goto g q s)
  start-Inv q e b = record {
    legal = i.legal;
    cached = i.cached;
    owner = λ j h. ground (arith, i.owner j);
    held = λ w h. ground (arith, i.held w);
    asks = λ j h. ground (arith, i.asks j);
    asked_by = λ w h. ground (arith, i.asked_by w);
    unknown = i.unknown;
    reader = λ j h. ground (arith, i.reader j);
  }

  r_lock-Inv : s.pc g ≡ wants_read → Kept (r_lock g s)
  unfolding r_lock
  r_lock-Inv e = elim (Option-cases s.writer) [
    | inr (w, o) ↦ rw o tt
    | inl o ↦ rw o (record {
      legal = i.legal;
      cached = i.cached;
      owner = λ j h. ground (arith, i.owner j);
      held = λ w h. ground (arith, i.held w);
      asks = λ j h. ground (arith, i.asks j);
      asked_by = λ w h. ground (arith, i.asked_by w);
      unknown = i.unknown;
      reader = λ j h. ground (arith, i.reader j);
    })
  ]

  lock-Inv :
      (p q : Pc)
      → s.pc g ≡ p
      → (holds p ≡ false) × (reads p ≡ false)
      → (holds q ≡ true) × (fetches q ≡ false)
      → Kept (lock g q s)
  unfolding lock
  lock-Inv p q e a b = elim (Option-cases s.writer) [
    | inr (w, o) ↦ rw o tt
    | inl o ↦ rw o (record {
      legal = i.legal;
      cached = i.cached;
      owner = λ j h. ground (arith, i.owner j);
      held = λ w h. ground (arith, i.held w);
      asks = λ j h. ground (arith, i.asks j);
      asked_by = λ w h. ground (arith, i.asked_by w, i.asks w, i.held w, i.owner w, e);
      unknown = i.unknown;
      reader = λ j h. ground (arith, i.reader j);
    })
  ]

  drained-Inv :
      (p q : Pc)
      → s.pc g ≡ p
      → (holds p ≡ true) × (fetches p ≡ false) × (reads p ≡ false)
      → (holds q ≡ true) × (fetches q ≡ false)
      → Kept (drained g q s)
  unfolding drained
  drained-Inv p q e a b = elim (List-cases s.readers) [
    | inr (r, rs, f) ↦ rw f tt
    | inl f ↦ rw f (record {
      legal = i.legal;
      cached = i.cached;
      owner = λ j h. ground (arith, i.owner j, i.owner g);
      held = λ w h. ground (arith, i.held w);
      asks = λ j h. ground (arith, i.asks j);
      asked_by = λ w h. ground (arith, i.asked_by w);
      unknown = i.unknown;
      reader = λ j h. ground (arith, i.reader j);
    })
  ]

  read_cache-Inv : s.pc g ≡ reading → Inv (read_cache g s)
  unfolding read_cache
  read_cache-Inv e = elim (Option-cases s.version_cached) [
    | inl c ↦ rw c (record {
      legal = i.legal;
      cached = ground (arith, i.cached);
      owner = λ j h. ground (arith, i.owner j);
      held = λ w h. ground (arith, i.held w);
      asks = λ j h. ground (arith, i.asks j);
      asked_by = λ w h. ground (arith, i.asked_by w);
      unknown = λ w h. ground (arith, i.unknown w);
      reader = λ j h. ground (arith, i.reader j, In-remove j g s.readers);
    })
    | inr (v, c) ↦ rw c (record {
      legal = (ground (arith, i.cached), i.legal);
      cached = ground (arith, i.cached);
      owner = λ j h. ground (arith, i.owner j);
      held = λ w h. ground (arith, i.held w);
      asks = λ j h. ground (arith, i.asks j);
      asked_by = λ w h. ground (arith, i.asked_by w);
      unknown = λ w h. ground (arith, i.unknown w);
      reader = λ j h. ground (arith, i.reader j, In-remove j g s.readers);
    })
  ]

  check_again-Inv : s.pc g ≡ checking → Inv (check_again g s)
  unfolding check_again
  check_again-Inv e = elim (Option-cases s.version_cached) [
    | inl c ↦ rw c (record {
      legal = (ground (arith, i.cached), not_asking, i.legal);
      cached = ground (arith, i.cached);
      owner = λ j h. ground (arith, i.owner j, i.owner g);
      held = λ w h. ground (arith, i.held w);
      asks = λ j h. ground (arith, i.asks j, not_asking);
      asked_by = λ w h. ground (arith, i.asked_by w);
      unknown = λ w h. ground (arith, c);
      reader = λ j h. ground (arith, i.reader j);
    })
    | inr (v, c) ↦ rw c (record {
      legal = (ground (arith, i.cached), i.legal);
      cached = ground (arith, i.cached);
      owner = λ j h. ground (arith, i.owner j, i.owner g);
      held = λ w h. cc;
      asks = λ j h. ground (arith, i.asks j, not_asking);
      asked_by = λ w h. ground (arith, i.asked_by w);
      unknown = λ w h. ground (arith, i.unknown w);
      reader = λ j h. ground (arith, i.reader j);
    })
  ]
    where
      not_asking : asking s.history ≡ none
      not_asking = elim (Option-cases (asking s.history)) [
        | inl n ↦ n
        | inr (w, n) ↦ ground (arith, i.asked_by w n, i.owner w, i.owner g)
      ]

  -- Under the lock, no other goroutine fetches.
  alone : (w : ℕ) → holds (s.pc g) ≡ true → asking s.history ≡ some w → w ≡ g
  alone w h a = ground (arith, i.asked_by w a, i.owner w, i.owner g h)

  store-Inv : (r : Result FetchError TalosVersion) → s.pc g ≡ fetching → Inv (store g r s)
  unfolding store
  store-Inv (ok v) e = record {
    legal = (ground (arith, i.cached, i.unknown g, i.asks g), ground (arith, i.asks g), i.legal);
    cached = refl;
    owner = λ j h. ground (arith, i.owner j, i.owner g);
    held = λ w h. cc;
    asks = λ j h. ground (arith, i.asks j, i.owner j, i.owner g);
    asked_by = λ w h. cc;
    unknown = λ w h. cc;
    reader = λ j h. ground (arith, i.reader j);
  }
  store-Inv (err f) e = record {
    legal = (ground (arith, i.asks g), i.legal);
    cached = i.cached;
    owner = λ j h. ground (arith, i.owner j, i.owner g);
    held = λ w h. cc;
    asks = λ j h. ground (arith, i.asks j, i.owner j, i.owner g);
    asked_by = λ w h. cc;
    unknown = λ w h. cc;
    reader = λ j h. ground (arith, i.reader j);
  }

  invalidate-Inv : s.pc g ≡ clearing → Inv (invalidate g s)
  unfolding invalidate
  invalidate-Inv e = record {
    legal = (not_asking, i.legal);
    cached = refl;
    owner = λ j h. ground (arith, i.owner j, i.owner g);
    held = λ w h. cc;
    asks = λ j h. ground (arith, i.asks j, not_asking);
    asked_by = λ w h. ground (arith, i.asked_by w);
    unknown = λ w h. refl;
    reader = λ j h. ground (arith, i.reader j);
  }
    where
      not_asking : asking s.history ≡ none
      not_asking = elim (Option-cases (asking s.history)) [
        | inl n ↦ n
        | inr (w, n) ↦ ground (arith, i.asked_by w n, i.owner w, i.owner g)
      ]

  pub dispatch-Kept : (p : Pc) (c : Choice) → s.pc g ≡ p → Kept (dispatch p c g s)
  unfolding dispatch
  dispatch-Kept idle call_get e = start-Inv wants_read e (refl, refl)
  dispatch-Kept idle call_invalidate e = start-Inv wants_clear e (refl, refl)
  dispatch-Kept wants_read proceed e = r_lock-Inv e
  dispatch-Kept reading proceed e = read_cache-Inv e
  dispatch-Kept wants_write proceed e = lock-Inv wants_write draining e (refl, refl) (refl, refl)
  dispatch-Kept draining proceed e = drained-Inv draining checking e (refl, refl, refl) (refl, refl)
  dispatch-Kept checking proceed e = check_again-Inv e
  dispatch-Kept fetching (answer r) e = store-Inv (fetch_version r) e
  dispatch-Kept wants_clear proceed e =
      lock-Inv wants_clear draining_clear e (refl, refl) (refl, refl)
  dispatch-Kept draining_clear proceed e =
      drained-Inv draining_clear clearing e (refl, refl, refl) (refl, refl)
  dispatch-Kept clearing proceed e = invalidate-Inv e
  dispatch-Kept _ _ e = tt
