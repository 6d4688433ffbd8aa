-- ===== src/Prediction/Cache.antt =====
-- The cache: what expires, what an observation clears.
use ume.Prelude.{
  ℕ, ◌≡◌, refl, inl, inr, not, Option, none, some, List, [], ◌∷◌, arith, ◌==◌, if◌then◌else◌,
  Bool-cases, filter, lookup, Fresh, IsMap, lookup-Fresh, lookup-erase,
}
use ume.Prediction.{
  Prediction, PredictionEngine, observe, register_access_observation, is_expired,
  invalidate_expired_predictions,
}

module _ {Double : Type 0} where
  -- After an observation of an object whose cache has distinct keys, the object has no prediction,
  -- and all others are as before.
  pub register_access_observation-lookup :
      (object_id tier k : ℕ) (e : PredictionEngine Double)
      → IsMap e.prediction_cache
      → lookup k (register_access_observation object_id tier e).prediction_cache
        ≡ (if object_id == k then none else lookup k e.prediction_cache)
  unfolding register_access_observation
  register_access_observation-lookup object_id tier k e v =
      cases (lookup object_id e.prediction_cache) refl
    where
      cases :
          (o : Option (Prediction Double))
          → lookup object_id e.prediction_cache ≡ o
          → lookup k (observe object_id tier e o).prediction_cache
            ≡ (if object_id == k then none else lookup k e.prediction_cache)
      cases none h = ground arith
      cases (some p) h = lookup-erase object_id k e.prediction_cache v

  -- `invalidate_expired_predictions` on a cache with distinct keys removes exactly the entries that
  -- have expired, and answers for every other object as before.
  pub invalidate_expired_predictions-lookup :
      (now k : ℕ) (e : PredictionEngine Double) (p : Prediction Double)
      → IsMap e.prediction_cache
      → lookup k e.prediction_cache ≡ some p
      → lookup k (invalidate_expired_predictions now e).prediction_cache
        ≡ (if is_expired now p then none else some p)
  unfolding invalidate_expired_predictions
  invalidate_expired_predictions-lookup now k e p v h = in_list e.prediction_cache v h
    where
      Fresh-filter :
          (j : ℕ) (m : List (ℕ × Prediction Double))
          → Fresh j m
          → Fresh j (filter (λ entry. not (is_expired now entry.1)) m)
      Fresh-filter j [] f = tt
      Fresh-filter j ((i, q) ∷ m) (ne, f) = elim (Bool-cases (is_expired now q)) [
        | inl old ↦ simp old (Fresh-filter j m f)
        | inr live ↦ simp live (ne, Fresh-filter j m f)
      ]

      in_list :
          (m : List (ℕ × Prediction Double))
          → IsMap m
          → lookup k m ≡ some p
          → lookup k (filter (λ entry. not (is_expired now entry.1)) m)
            ≡ (if is_expired now p then none else some p)
      in_list [] v h = absurd (ground arith)
      in_list ((i, q) ∷ m) (f, v) h = ground (
        arith,
        in_list m v,
        lookup-Fresh i (filter (λ entry. not (is_expired now entry.1)) m) (Fresh-filter i m f),
      )
