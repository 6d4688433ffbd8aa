-- ===== src/Scheduler/Tests.antt =====
-- A policy with thresholds in percent.
use ume.Prelude.{ℕ, ◌*◌, Bool, ltb, arith}
use ume.Statistics.{StatisticsCollector, new_collector}
use ume.Scheduler.{SchedulingPolicy, schedule_allocation}
use ume.Scheduler.Tiers.{IsPlaced, schedule_allocation-IsPlaced}

abbrev exceeds : ℕ → ℕ → ℕ → Bool
exceeds a b percent = ltb (percent * b) (100 * a)

abbrev policy : SchedulingPolicy ℕ exceeds
policy = record {
  ram_pressure_threshold = 85;
  vram_pressure_threshold = 90;
  vram_hot_access_count_threshold = 10;
  large_allocation_threshold_bytes = 1073741824;
}

abbrev busy : StatisticsCollector
busy = record new_collector { current_vram_bytes = 950; peak_vram_bytes = 1000 }

schedule_allocation-IsPlaced_example :
    IsPlaced ℕ exceeds policy busy 5 7 4096 12 1
      (schedule_allocation ℕ exceeds policy busy 5 7 4096 12 1)
schedule_allocation-IsPlaced_example =
    schedule_allocation-IsPlaced ℕ exceeds policy busy 5 7 4096 12 1 (omega arith)
