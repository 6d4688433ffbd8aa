-- ===== src/Prediction/Hybrid.antt =====
-- `HybridPredictor` of core/src/event/prediction_engine.cpp, the predictor that an engine has where
-- it is given none. `now` and `later` are what the clock reads.
use ume.Prelude.{ℕ, true, not, ◌&&◌, ◌==◌, if◌then◌else◌, add64}
use ume.Floating.{Doubles}
use ume.Status.{Result, ok, err}
use ume.Types.Tier
use ume.Learning.{MemoryPattern, PatternLearningEngine, get_pattern}
use ume.Prediction.{Prediction}

-- A tier with what it is worth, in microseconds, and what it costs to bring the object there.
pub record Forecast : Type 0 where
  pub tier : ℕ
  pub benefit_us : ℕ
  pub cost_us : ℕ

module _ (d : Doubles) where
  -- The chain of tests on what is learned of an object.
  abbrev pub forecast : MemoryPattern d → Forecast
  forecast p =
      if not (p.last_stride == 0) && d.less (d.fraction 7 10) p.confidence
      then record { tier = Tier.vram; benefit_us = 150; cost_us = 15 }
      else if d.less (d.fraction 8 10) p.frequency_score
      then record { tier = Tier.vram; benefit_us = 100; cost_us = 20 }
      else if d.less p.recency_score (d.fraction 2 10)
      then record { tier = Tier.nvme; benefit_us = 50; cost_us = 80 }
      else record { tier = Tier.ram; benefit_us = 0; cost_us = 0 }

  abbrev pub prediction_of : ℕ → ℕ → ℕ → MemoryPattern d → Prediction d.Double
  prediction_of now later object_id p = record {
    target_object = object_id;
    confidence_score = p.confidence;
    expected_timestamp = add64 now 1000000;
    expected_tier = (forecast p).tier;
    estimated_benefit_us = (forecast p).benefit_us;
    estimated_cost_us = (forecast p).cost_us;
    expiration = add64 later 5000000000;
    is_valid = true;
  }

  abbrev pub predicted : ℕ → ℕ → ℕ → Result (MemoryPattern d) → Result (Prediction d.Double)
  predicted now later object_id (err s) = err s
  predicted now later object_id (ok p) = ok (prediction_of now later object_id p)

  unfoldable pub predict : ℕ → ℕ → ℕ → PatternLearningEngine d → Result (Prediction d.Double)
  predict now later object_id learning =
      predicted now later object_id (get_pattern d object_id learning)
