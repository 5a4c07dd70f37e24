-- ===== src/Resources/Items.antt =====
-- The loop of handleCOSIResource in internal/resources/cosi.go that marshals the resources of a list
-- up to the limit.
use talos_mcp_server.Common.{
  ℕ, zero, suc, ◌+◌, ◌≡◌, refl, ap, ◌∙◌, inl, inr, Bool, true, false, List, [], ◌∷◌, ◌++◌,
  append-nil, append_assoc, arith, ltb, leb, ◌==◌, if◌then◌else◌, ◌>>=◌, Result-cases, Text, length,
  take, length-append, Result, ok,
}

-- The response of handleCOSIResource.
pub record Payload : Type 0 where
  pub results : List Text
  pub truncated : Bool

abbrev pub max_list_results : ℕ
max_list_results = 100

module _ (marshal_resource : Text → Result Text Text) where
  unfoldable pub collect_items : List Text → List Text → Result Text Payload
  collect_items results [] = ok (record { results = results; truncated = false })
  collect_items results (r ∷ rs) =
      if leb max_list_results (length results)
      then ok (record { results = results; truncated = true })
      else (marshal_resource r >>= λ d. collect_items (results ++ d ∷ []) rs)

  -- All of them, each marshalled; or the first failure.
  unfoldable pub marshal_each : List Text → Result Text (List Text)
  marshal_each [] = ok []
  marshal_each (r ∷ rs) = marshal_resource r >>= λ d. marshal_each rs >>= λ ds. ok (d ∷ ds)

  pub length-marshal_each : (rs ds : List Text) → marshal_each rs ≡ ok ds → length ds ≡ length rs
  unfolding marshal_each
  length-marshal_each [] ds h = ground arith
  length-marshal_each (r ∷ rs) ds h = elim (Result-cases (marshal_resource r)) [
    | inl (d, e) ↦ elim (Result-cases (marshal_each rs)) [
      | inl (es, q) ↦ ground (arith, length-marshal_each rs es q)
      | inr (x, q) ↦ ground arith
    ]
    | inr (x, e) ↦ ground arith
  ]

  capped : List Text → List Text → List Text → Payload
  capped results rs ds = record {
    results = results ++ ds;
    truncated = ltb max_list_results (length results + length rs);
  }

  capped-snoc :
      (results rs ds : List Text) (r d : Text)
      → capped (results ++ d ∷ []) rs ds ≡ capped results (r ∷ rs) (d ∷ ds)
  unfolding capped
  capped-snoc results rs ds r d =
      rw
        (
          append_assoc results (d ∷ []) ds,
          length-append results (d ∷ []),
          snoc_size (length results) (length rs),
        )
        refl
    where
      snoc_size : (n m : ℕ) → (n + 1) + m ≡ n + suc m
      snoc_size n m = omega arith

  full : (n k : ℕ) → n + k ≡ max_list_results → leb max_list_results n ≡ (k == 0)
  full n k h = ground arith

  collect_items_from :
      (k : ℕ) (rs results : List Text)
      → length results + k ≡ max_list_results
      → collect_items results rs ≡ (marshal_each (take k rs) >>= λ ds. ok (capped results rs ds))
  unfolding collect_items marshal_each capped
  collect_items_from zero [] results h = ground (arith, append-nil results)
  collect_items_from (suc k) [] results h = ground (arith, append-nil results)
  collect_items_from zero (r ∷ rs) results h = ground (arith, append-nil results)
  collect_items_from (suc k) (r ∷ rs) results h = elim (Result-cases (marshal_resource r)) [
    | inl (d, e) ↦
        let ih =
          collect_items_from k rs (results ++ d ∷ [])
            (omega (arith, h, length-append results (d ∷ []))) in
        elim (Result-cases (marshal_each (take k rs))) [
          | inl (ds, q) ↦
              ground (arith, ih, full (length results) (suc k) h, capped-snoc results rs ds r d)
          | inr (x, q) ↦ ground (arith, ih, full (length results) (suc k) h)
        ]
    | inr (x, e) ↦ ground (arith, full (length results) (suc k) h)
  ]

  -- The loop marshals the first hundred resources, in order, and fails with the first of them that
  -- cannot be marshalled; the answer is truncated exactly when there are more.
  pub collect_items_exact :
      (rs : List Text)
      → collect_items [] rs ≡ (
          marshal_each (take max_list_results rs) >>= λ ds.
          ok (record { results = ds; truncated = ltb max_list_results (length rs) }))
  unfolding capped
  collect_items_exact rs =
      collect_items_from max_list_results rs [] refl
      ∙ ap
          (λ n. marshal_each (take max_list_results rs) >>= λ ds.
            ok (record { results = ds; truncated = ltb max_list_results n }))
          (the_rest (length rs))
    where
      the_rest : (n : ℕ) → 0 + n ≡ n
      the_rest n = omega arith
