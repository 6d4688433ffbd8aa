-- ===== src/Scheduler/Tiers.antt =====
-- The decision of core/src/event/memory_scheduler.cpp against the request and the gauges.
use ume.Prelude.{
  ℕ, ◌+◌, ◌*◌, ◌%◌, ◌^◌, ◌≤◌, ◌<◌, ◌≡◌, ◌⊎◌, inl, inr, Bool, true, false, refl, ap, arith, leb,
  Bool-cases,
}
use ume.Statistics.{StatisticsCollector}
use ume.Placement.{SchedulingDecision}
use ume.Scheduler.{SchedulingPolicy, is_hot, vram_pressure, ram_pressure, schedule_allocation}

-- A decision for a request at a time.
abbrev pub decided : ℕ → ℕ → ℕ → ℕ → ℕ → ℕ → SchedulingDecision
decided tier reason score now object_id size = record {
  object_id = object_id;
  preferred_tier = tier;
  priority_score = score % 2 ^ 32;
  reason = reason;
  decision_timestamp = now;
  allocation_size_bytes = size;
}

module _ (Threshold : Type 0) (exceeds : ℕ → ℕ → Threshold → Bool) where
  -- Accessed as often as the policy says, or of the priority 3, which is critical.
  abbrev pub IsHot : SchedulingPolicy Threshold exceeds → ℕ → ℕ → Type 0
  IsHot policy access_count priority =
      (policy.vram_hot_access_count_threshold ≤ access_count) ⊎ (priority ≡ 3)

  -- With the request, the gauge is too near to its peak.
  abbrev pub IsFull : ℕ → ℕ → ℕ → Threshold → Type 0
  IsFull current peak size threshold =
      (0 < peak) × (exceeds ((current + size) % 2 ^ 64) peak threshold ≡ true)

  -- The four decisions: the tiers are 0 for VRAM, 1 for RAM and 4 for NVMe.
  pub record IsPlaced (policy : SchedulingPolicy Threshold exceeds) (stats : StatisticsCollector)
      (now object_id size access_count priority : ℕ) (decision : SchedulingDecision) : Type 0 where
    pub hot :
        IsHot policy access_count priority
        → ¬ IsFull stats.current_vram_bytes stats.peak_vram_bytes size
            policy.vram_pressure_threshold
        → decision ≡ decided 0 1 (priority * 50 + 100) now object_id size
    pub falls_back :
        IsHot policy access_count priority
        → IsFull stats.current_vram_bytes stats.peak_vram_bytes size policy.vram_pressure_threshold
        → decision ≡ decided 1 3 (priority * 50 + 50) now object_id size
    pub spills :
        ¬ IsHot policy access_count priority
        → IsFull stats.current_ram_bytes stats.peak_ram_bytes size policy.ram_pressure_threshold
        → decision ≡ decided 4 2 (priority * 50 + 50) now object_id size
    pub stays :
        ¬ IsHot policy access_count priority
        → ¬ IsFull stats.current_ram_bytes stats.peak_ram_bytes size policy.ram_pressure_threshold
        → decision ≡ decided 1 0 (priority * 50 + 50) now object_id size

  hot_if :
      (policy : SchedulingPolicy Threshold exceeds) (access_count priority : ℕ)
      → IsHot policy access_count priority
      → is_hot Threshold exceeds policy access_count priority ≡ true
  hot_if policy access_count priority (inl often) = ground arith
  hot_if policy access_count priority (inr critical) = ground arith

  cold_if :
      (policy : SchedulingPolicy Threshold exceeds) (access_count priority : ℕ)
      → ¬ IsHot policy access_count priority
      → is_hot Threshold exceeds policy access_count priority ≡ false
  cold_if policy access_count priority h =
      elim (Bool-cases (is_hot Threshold exceeds policy access_count priority)) [
        | inl hot ↦ elim (Bool-cases (leb policy.vram_hot_access_count_threshold access_count)) [
          | inl often ↦ absurd (h (inl (ground arith)))
          | inr seldom ↦ absurd (h (inr (ground arith)))
        ]
        | inr cold ↦ cold
      ]

  module _ (policy : SchedulingPolicy Threshold exceeds) (stats : StatisticsCollector)
      (size : ℕ) where
    vram_full :
        IsFull stats.current_vram_bytes stats.peak_vram_bytes size policy.vram_pressure_threshold
        → vram_pressure Threshold exceeds policy stats size ≡ true
    vram_full (some_peak, over) = ground arith

    vram_free :
        ¬ IsFull stats.current_vram_bytes stats.peak_vram_bytes size policy.vram_pressure_threshold
        → vram_pressure Threshold exceeds policy stats size ≡ false
    vram_free h = elim (Bool-cases (vram_pressure Threshold exceeds policy stats size)) [
      | inl full ↦ absurd (h (ground arith, ground arith))
      | inr free ↦ free
    ]

    ram_full :
        IsFull stats.current_ram_bytes stats.peak_ram_bytes size policy.ram_pressure_threshold
        → ram_pressure Threshold exceeds policy stats size ≡ true
    ram_full (some_peak, over) = ground arith

    ram_free :
        ¬ IsFull stats.current_ram_bytes stats.peak_ram_bytes size policy.ram_pressure_threshold
        → ram_pressure Threshold exceeds policy stats size ≡ false
    ram_free h = elim (Bool-cases (ram_pressure Threshold exceeds policy stats size)) [
      | inl full ↦ absurd (h (ground arith, ground arith))
      | inr free ↦ free
    ]

  -- For every policy, state of the gauges and request, of a priority of 8 bits: a request that is
  -- accessed often or critical gets VRAM and 50 points more, or, if VRAM would be too near to its
  -- peak, RAM, with its own reason; another request gets NVMe if RAM would be too near to its peak,
  -- and RAM else; each with the score of the priority, the time, the object and the size.
  pub schedule_allocation-IsPlaced :
      (policy : SchedulingPolicy Threshold exceeds) (stats : StatisticsCollector)
      (now object_id size access_count priority : ℕ)
      → priority < 256
      → IsPlaced policy stats now object_id size access_count priority (
          schedule_allocation Threshold exceeds policy stats now object_id size access_count
            priority)
  unfolding schedule_allocation
  schedule_allocation-IsPlaced policy stats now object_id size access_count priority small =
      record {
        hot = λ h free.
            simp (hot_if policy access_count priority h, vram_free policy stats size free)
              (ap (λ score. decided 0 1 score now object_id size) (omega arith));
        falls_back = λ h full.
            simp (hot_if policy access_count priority h, vram_full policy stats size full) refl;
        spills = λ h full.
            simp (cold_if policy access_count priority h, ram_full policy stats size full) refl;
        stays = λ h free.
            simp (cold_if policy access_count priority h, ram_free policy stats size free) refl;
      }
