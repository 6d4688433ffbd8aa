-- ===== src/Twin.antt =====
-- `DigitalTwinEngine` of core/src/event/digital_twin.cpp. Doubles are a parameter, and so are the
-- readings of the clock.
pub mod Selection
mod Tests
use Prim.Native.String.{String}
use ume.Prelude.{
  ℕ, ◌*◌, Bool, true, false, ◌&&◌, ◌||◌, List, [], ◌∷◌, ltb, ◌==◌, if◌then◌else◌, add64, sub64,
}
use ume.Floating.{Doubles, least, greatest}
use ume.Status.{invalid_argument, Result, ok, err}
use ume.Types.Tier.{vram, ram, nvme}

pub record SimulationPlan (d : Doubles) : Type 0 where
  pub plan_id : ℕ
  pub name : String
  pub object_id : ℕ
  pub target_tier : ℕ
  pub size_bytes : ℕ
  pub estimated_latency_us : ℕ
  pub estimated_bandwidth_bytes_sec : ℕ
  pub cache_hit_ratio : d.Double
  pub overall_score : d.Double

pub record SimulationResult (d : Doubles) : Type 0 where
  pub evaluated_plans : List (SimulationPlan d)
  pub selected_plan_id : ℕ
  pub selected_plan_score : d.Double

pub record SimulationContext : Type 0 where
  pub current_ram_usage : ℕ
  pub current_vram_usage : ℕ
  pub current_ssd_usage : ℕ
  pub max_ram_bytes : ℕ
  pub max_vram_bytes : ℕ
  pub max_ssd_bytes : ℕ

pub record TwinMetrics : Type 0 where
  pub simulations_executed : ℕ
  pub total_simulation_latency_ns : ℕ
  pub decision_quality_scores_sum : ℕ

-- What a tier promises: latency, bandwidth, the ratio of cache hits in percent, and how much of its
-- capacity is used.
pub record TierEstimate : Type 0 where
  pub latency_us : ℕ
  pub bandwidth : ℕ
  pub hit_percent : ℕ
  pub max_bytes : ℕ
  pub usage : ℕ

-- The cases of the switch; a tier without a case has no capacity to pass.
abbrev pub estimate_of : SimulationContext → ℕ → TierEstimate
estimate_of ctx tier =
    if tier == vram
    then record {
      latency_us = 10;
      bandwidth = 250 * 1024 * 1024 * 1024;
      hit_percent = 98;
      max_bytes = ctx.max_vram_bytes;
      usage = ctx.current_vram_usage;
    }
    else if tier == ram
    then record {
      latency_us = 80;
      bandwidth = 50 * 1024 * 1024 * 1024;
      hit_percent = 85;
      max_bytes = ctx.max_ram_bytes;
      usage = ctx.current_ram_usage;
    }
    else if tier == nvme
    then record {
      latency_us = 5000;
      bandwidth = 3 * 1024 * 1024 * 1024;
      hit_percent = 50;
      max_bytes = ctx.max_ssd_bytes;
      usage = ctx.current_ssd_usage;
    }
    else record {
      latency_us = 10000;
      bandwidth = 1024 * 1024 * 1024;
      hit_percent = 10;
      max_bytes = 0;
      usage = 0;
    }

module _ (d : Doubles) where
  -- The penalty of a tier whose capacity would be passed.
  abbrev pub capacity_penalty : TierEstimate → ℕ → d.Double
  capacity_penalty e size =
      if ltb 0 e.max_bytes && ltb e.max_bytes (add64 e.usage size) then d.of_nat 80 else d.of_nat 0

  abbrev pub latency_score : ℕ → d.Double
  latency_score latency_us =
      if ltb 10000 latency_us
      then d.of_nat 10
      else d.minus (d.of_nat 100) (d.divided (d.of_nat latency_us) (d.of_nat 110))

  abbrev pub bandwidth_score : ℕ → d.Double
  bandwidth_score bandwidth =
      least d (d.of_nat 100) (d.divided (d.of_nat bandwidth) (d.of_nat (3 * 1024 * 1024 * 1024)))

  unfoldable pub evaluate_plan : SimulationContext → SimulationPlan d → SimulationPlan d
  evaluate_plan ctx plan =
      let e = estimate_of ctx plan.target_tier in
      let hits = d.fraction e.hit_percent 100 in
      let score =
        d.plus
          (d.plus (d.times (latency_score e.latency_us) (d.fraction 4 10))
            (d.times (bandwidth_score e.bandwidth) (d.fraction 3 10)))
          (d.times hits (d.of_nat 30)) in
      record plan {
        estimated_latency_us = e.latency_us;
        estimated_bandwidth_bytes_sec = e.bandwidth;
        cache_hit_ratio = hits;
        overall_score =
            greatest d (d.of_nat 0) (d.minus score (capacity_penalty e plan.size_bytes));
      }

  -- The loop over the plans, with the best score and the plan that has it so far.
  abbrev pub evaluate_plans :
      ℕ → ℕ → SimulationContext → List (SimulationPlan d) → d.Double → ℕ → SimulationResult d
  evaluate_plans object_id size ctx [] best_score best_plan_id = record {
    evaluated_plans = [];
    selected_plan_id = best_plan_id;
    selected_plan_score = best_score;
  }
  evaluate_plans object_id size ctx (candidate ∷ rest) best_score best_plan_id =
      let plan =
        evaluate_plan ctx (record candidate { object_id = object_id; size_bytes = size }) in
      let better = d.less best_score plan.overall_score in
      let result =
        evaluate_plans object_id size ctx rest (if better then plan.overall_score else best_score)
          (if better then plan.plan_id else best_plan_id) in
      record result { evaluated_plans = plan ∷ result.evaluated_plans }

  abbrev pub is_empty : List (SimulationPlan d) → Bool
  is_empty [] = true
  is_empty (p ∷ ps) = false

  -- `started` and `ended` are what the clock reads.
  unfoldable pub simulate_strategies :
      ℕ
      → ℕ
      → ℕ
      → ℕ
      → SimulationContext
      → List (SimulationPlan d)
      → TwinMetrics
      → Result (SimulationResult d) × TwinMetrics
  simulate_strategies started ended object_id size ctx candidates metrics =
      let result = evaluate_plans object_id size ctx candidates d.minus_one 0 in
      if is_empty candidates || object_id == 0 then (err invalid_argument, metrics) else (
        ok result,
        record {
          simulations_executed = add64 metrics.simulations_executed 1;
          total_simulation_latency_ns =
              add64 metrics.total_simulation_latency_ns (sub64 ended started);
          decision_quality_scores_sum =
              add64 metrics.decision_quality_scores_sum (d.to_uint64 result.selected_plan_score);
        },
      )
