-- ===== src/Prediction.antt =====
-- `PredictionEngine` of core/src/event/prediction_engine.cpp: the cache of predictions. The
-- confidence is a double, whose type is a parameter. The predictor is an interface, so its answer
-- is a parameter of `get_prediction`, as are the clock's readings; `learning` says whether the
-- engine has a learning engine.
pub mod Expiry
pub mod Cache
pub mod Hybrid
pub mod Sequential
mod Tests
use ume.Prelude.{
  ℕ, Bool, not, ◌&&◌, Option, none, some, List, [], ltb, leb, ◌==◌, if◌then◌else◌, add64, sub64,
  filter, lookup, insert, erase,
}
use ume.Status.{Result, ok, err, invalid_state}

pub record Metrics : Type 0 where
  pub predictions_issued : ℕ
  pub correct_predictions : ℕ
  pub false_positives : ℕ
  pub false_negatives : ℕ
  pub cache_hits : ℕ
  pub cache_misses : ℕ
  pub total_prediction_latency_ns : ℕ

abbrev pub no_metrics : Metrics
no_metrics = record {
  predictions_issued = 0;
  correct_predictions = 0;
  false_positives = 0;
  false_negatives = 0;
  cache_hits = 0;
  cache_misses = 0;
  total_prediction_latency_ns = 0;
}

pub record Prediction (Double : Type 0) : Type 0 where
  pub target_object : ℕ
  pub confidence_score : Double
  pub expected_timestamp : ℕ
  pub expected_tier : ℕ
  pub estimated_benefit_us : ℕ
  pub estimated_cost_us : ℕ
  pub expiration : ℕ
  pub is_valid : Bool

pub record PredictionEngine (Double : Type 0) : Type 0 where
  pub prediction_cache : List (ℕ × Prediction Double)
  pub metrics : Metrics

module _ {Double : Type 0} where
  -- A cached prediction serves until it expires.
  abbrev pub is_live : ℕ → Prediction Double → Bool
  is_live now p = ltb 0 p.expiration && ltb now p.expiration

  abbrev pub answer_miss :
      ℕ
      → ℕ
      → ℕ
      → Result (Prediction Double)
      → PredictionEngine Double
      → Result (Prediction Double) × PredictionEngine Double
  answer_miss start end object_id (err s) e = (err s, e)
  answer_miss start end object_id (ok p) e = (
    ok p,
    record e {
      prediction_cache = insert object_id p e.prediction_cache;
      metrics = record (e.metrics) {
        predictions_issued = add64 e.metrics.predictions_issued 1;
        total_prediction_latency_ns = add64 e.metrics.total_prediction_latency_ns (sub64 end start);
      };
    },
  )

  -- The part behind the cache.
  unfoldable pub miss :
      Bool
      → ℕ
      → ℕ
      → ℕ
      → Result (Prediction Double)
      → PredictionEngine Double
      → Result (Prediction Double) × PredictionEngine Double
  miss learning start end object_id predicted e =
      let counted = record e {
        metrics = record (e.metrics) { cache_misses = add64 e.metrics.cache_misses 1 };
      } in
      if learning
      then answer_miss start end object_id predicted counted
      else (err invalid_state, counted)

  -- What follows the search of the cache.
  abbrev pub found :
      Bool
      → ℕ
      → ℕ
      → ℕ
      → ℕ
      → Result (Prediction Double)
      → PredictionEngine Double
      → Option (Prediction Double)
      → Result (Prediction Double) × PredictionEngine Double
  found learning start now end object_id predicted e none =
      miss learning start end object_id predicted e
  found learning start now end object_id predicted e (some p) =
      if is_live now p
      then (
        ok p,
        record e { metrics = record (e.metrics) { cache_hits = add64 e.metrics.cache_hits 1 } },
      )
      else miss learning start end object_id predicted
          (record e { prediction_cache = erase object_id e.prediction_cache })

  unfoldable pub get_prediction :
      Bool
      → ℕ
      → ℕ
      → ℕ
      → ℕ
      → Result (Prediction Double)
      → PredictionEngine Double
      → Result (Prediction Double) × PredictionEngine Double
  get_prediction learning start now end object_id predicted e =
      found learning start now end object_id predicted e (lookup object_id e.prediction_cache)

  abbrev pub observe :
      ℕ → ℕ → PredictionEngine Double → Option (Prediction Double) → PredictionEngine Double
  observe object_id actual_tier e none = record e {
    metrics = record (e.metrics) { false_negatives = add64 e.metrics.false_negatives 1 };
  }
  observe object_id actual_tier e (some p) = record e {
    prediction_cache = erase object_id e.prediction_cache;
    metrics =
        if p.expected_tier == actual_tier
        then record (e.metrics) { correct_predictions = add64 e.metrics.correct_predictions 1 }
        else record (e.metrics) { false_positives = add64 e.metrics.false_positives 1 };
  }

  unfoldable pub register_access_observation :
      ℕ → ℕ → PredictionEngine Double → PredictionEngine Double
  register_access_observation object_id actual_tier e =
      observe object_id actual_tier e (lookup object_id e.prediction_cache)

  -- Expired: a prediction with an expiration that is reached.
  abbrev pub is_expired : ℕ → Prediction Double → Bool
  is_expired now p = ltb 0 p.expiration && leb p.expiration now

  unfoldable pub invalidate_expired_predictions :
      ℕ → PredictionEngine Double → PredictionEngine Double
  invalidate_expired_predictions now e = record e {
    prediction_cache = filter (λ entry. not (is_expired now entry.1)) e.prediction_cache;
  }

  unfoldable pub reset : PredictionEngine Double → PredictionEngine Double
  reset e = record { prediction_cache = []; metrics = no_metrics }
