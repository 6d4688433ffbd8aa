-- ===== src/Prediction/Tests.antt =====
-- An engine with two predictions, one of which has expired; confidences are numbers.
use ume.Prelude.{List, if◌then◌else◌, ltb, ◌+◌, ◌*◌, ℕ, ◌≡◌, refl, true, [], ◌∷◌, arith, IsMap}
use ume.Types.Tier
use ume.Status.{ok, err, not_found}
use ume.Prediction.{Prediction, PredictionEngine, no_metrics, get_prediction}
use ume.Prediction.Expiry.{Request, AllServed, ask_all, get_prediction-expires}

-- A clock that goes on.
abbrev clock : ℕ → ℕ × ℕ
clock i = (20 * i, 20 * i + 10)

abbrev prediction : ℕ → Prediction ℕ
prediction expiration = record {
  target_object = 7;
  confidence_score = 85;
  expected_timestamp = 1000;
  expected_tier = Tier.vram;
  estimated_benefit_us = 150;
  estimated_cost_us = 15;
  expiration = expiration;
  is_valid = true;
}

abbrev engine : PredictionEngine ℕ
engine = record {
  prediction_cache = (7, prediction 5000) ∷ (8, prediction 100) ∷ [];
  metrics = no_metrics;
}

engine-IsMap : IsMap engine.prediction_cache
engine-IsMap = ((omega arith, tt), (tt, tt))

-- Requests for another object and for this one, before the expiration.
abbrev requests : List (Request ℕ)
requests =
    record { object_id = 8; start = 210; now = 211; end = 215; predicted = ok (prediction 300) }
    ∷ record { object_id = 9; start = 300; now = 301; end = 305; predicted = err not_found }
    ∷ []

get_prediction-expires_example :
    let (first, e') = get_prediction true 200 201 205 9 (ok (prediction 5000)) engine in
    (first ≡ ok (prediction 5000))
    × AllServed 9 (prediction 5000) requests e'
    × ((get_prediction true 6000 6001 6005 9 (err not_found) (ask_all requests e')).0
        ≡ (if ltb 6001 5000 then ok (prediction 5000) else err not_found))
get_prediction-expires_example =
    get_prediction-expires 9 200 201 205 6000 6001 6005 (prediction 5000) (err not_found) requests
      engine engine-IsMap refl (omega arith) ((λ h. omega arith), ((λ h. omega arith), tt))
