-- ===== src/Scheduler.antt =====
-- `MemoryScheduler` of core/src/event/memory_scheduler.cpp. The thresholds are doubles: their type,
-- and whether a quotient of two numbers exceeds one, are parameters. The snapshot's figures are
-- read straight from the collector; `now` is the clock's reading.
pub mod Tiers
mod Tests
use ume.Prelude.{
  ℕ, ◌+◌, ◌*◌, ◌%◌, ◌^◌, Bool, ◌&&◌, ◌||◌, ltb, leb, ◌==◌, if◌then◌else◌, add64, add32,
}
use ume.Types.Tier
use ume.Types.Priority
use ume.Statistics.{StatisticsCollector}
use ume.Placement.{SchedulingDecision}

-- `DecisionReason`.
abbrev pub default_placement : ℕ
default_placement = 0

abbrev pub hot_access_vram : ℕ
hot_access_vram = 1

abbrev pub ram_threshold_exceeded_ssd_spill : ℕ
ram_threshold_exceeded_ssd_spill = 2

abbrev pub vram_capacity_exceeded_ram_fallback : ℕ
vram_capacity_exceeded_ram_fallback = 3

-- `uint32_t` arithmetic of the score: the priority has 8 bits.
abbrev pub base_score : ℕ → ℕ
base_score priority = (priority * 50 + 50) % 2 ^ 32

module _ (Threshold : Type 0) (exceeds : ℕ → ℕ → Threshold → Bool) where
  pub record SchedulingPolicy : Type 0 where
    pub ram_pressure_threshold : Threshold
    pub vram_pressure_threshold : Threshold
    pub vram_hot_access_count_threshold : ℕ
    pub large_allocation_threshold_bytes : ℕ

  -- The request is for VRAM: by its accesses, or by its priority.
  abbrev pub is_hot : SchedulingPolicy → ℕ → ℕ → Bool
  is_hot policy access_count priority =
      leb policy.vram_hot_access_count_threshold access_count || (priority == Priority.critical)

  abbrev pub vram_pressure : SchedulingPolicy → StatisticsCollector → ℕ → Bool
  vram_pressure policy stats size =
      ltb 0 stats.peak_vram_bytes
      && exceeds (add64 stats.current_vram_bytes size) stats.peak_vram_bytes
          policy.vram_pressure_threshold

  abbrev pub ram_pressure : SchedulingPolicy → StatisticsCollector → ℕ → Bool
  ram_pressure policy stats size =
      ltb 0 stats.peak_ram_bytes
      && exceeds (add64 stats.current_ram_bytes size) stats.peak_ram_bytes
          policy.ram_pressure_threshold

  unfoldable pub schedule_allocation :
      SchedulingPolicy → StatisticsCollector → ℕ → ℕ → ℕ → ℕ → ℕ → SchedulingDecision
  schedule_allocation policy stats now object_id size access_count priority =
      let decision : SchedulingDecision = record {
        object_id = object_id;
        preferred_tier = Tier.ram;
        priority_score = base_score priority;
        reason = default_placement;
        decision_timestamp = now;
        allocation_size_bytes = size;
      } in
      if is_hot policy access_count priority
      then (if vram_pressure policy stats size
          then record decision {
            preferred_tier = Tier.ram;
            reason = vram_capacity_exceeded_ram_fallback;
          }
          else record decision {
            preferred_tier = Tier.vram;
            reason = hot_access_vram;
            priority_score = add32 (base_score priority) 50;
          })
      else if ram_pressure policy stats size
      then record decision { preferred_tier = Tier.nvme; reason = ram_threshold_exceeded_ssd_spill }
      else record decision { preferred_tier = Tier.ram; reason = default_placement }

  -- The scheduler keeps its policy; the statistics that it reads stand elsewhere.
  pub record MemoryScheduler : Type 0 where
    pub policy : SchedulingPolicy

  unfoldable pub update_policy : SchedulingPolicy → MemoryScheduler → MemoryScheduler
  update_policy policy s = record s { policy = policy }

  unfoldable pub current_policy : MemoryScheduler → SchedulingPolicy
  current_policy s = s.policy
