-- ===== src/Twin/Tests.antt =====
-- A simulation with whole numbers in the place of doubles, one above the number that they stand
-- for.
use ume.Prelude.{ℕ, ◌+◌, ◌-◌, ◌*◌, ◌/◌, ◌≡◌, [], ◌∷◌, map, arith, ltb}
use ume.Status.{ok}
use ume.Types.Tier.{vram, ram}
use ume.Floating.{Doubles}
use ume.Twin.{
  SimulationPlan, SimulationResult, SimulationContext, TwinMetrics, evaluate_plan,
  simulate_strategies,
}
use ume.Twin.Selection.{IsOrder, NoneAbove, Selects, simulate_strategies-Selects}

abbrev whole : Doubles
whole = record {
  Double = ℕ;
  less = ltb;
  plus = λ a b. a + b - 1;
  minus = λ a b. a - b + 1;
  times = λ a b. (a - 1) * (b - 1) + 1;
  divided = λ a b. (a - 1) / (b - 1) + 1;
  of_nat = λ n. n + 1;
  fraction = λ a b. a / b + 1;
  minus_one = 0;
  to_uint64 = λ a. a - 1;
}

whole-IsOrder : IsOrder whole
whole-IsOrder = record {
  less_irrefl = λ a. ground arith;
  less_asymm = λ a b h. ground arith;
  less_cotrans = λ a b c h g. ground arith;
  below_zero = λ x. ground arith;
}

abbrev candidate : ℕ → ℕ → SimulationPlan whole
candidate id tier = record {
  plan_id = id;
  name = "plan";
  object_id = 0;
  target_tier = tier;
  size_bytes = 0;
  estimated_latency_us = 0;
  estimated_bandwidth_bytes_sec = 0;
  cache_hit_ratio = 2;
  overall_score = 1;
}

abbrev full_vram : SimulationContext
full_vram = record {
  current_ram_usage = 0;
  current_vram_usage = 100;
  current_ssd_usage = 0;
  max_ram_bytes = 1000;
  max_vram_bytes = 100;
  max_ssd_bytes = 1000;
}

abbrev zero_metrics : TwinMetrics
zero_metrics = record {
  simulations_executed = 0;
  total_simulation_latency_ns = 0;
  decision_quality_scores_sum = 0;
}

simulate_strategies-Selects_example :
    (r : SimulationResult whole) × (((simulate_strategies whole 5 9 7 64 full_vram
          (candidate 1 vram ∷ candidate 2 ram ∷ [])
          zero_metrics).0
        ≡ ok r)
      × (r.evaluated_plans
          ≡ map
              (λ c. evaluate_plan whole full_vram (record c { object_id = 7; size_bytes = 64 }))
              (candidate 1 vram ∷ candidate 2 ram ∷ []))
      × NoneAbove whole whole-IsOrder r.selected_plan_score r.evaluated_plans
      × Selects whole whole-IsOrder r)
simulate_strategies-Selects_example =
    simulate_strategies-Selects whole whole-IsOrder 5 9 7 64 full_vram (candidate 1 vram)
      (candidate 2 ram ∷ []) zero_metrics (λ e. ground arith)
