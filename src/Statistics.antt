-- ===== src/Statistics.antt =====
-- `StatisticsCollector` of core/src/event/memory_statistics.cpp: the totals of the three gauges,
-- and one entry for each tier and each process. An operation holds the mutex throughout and is one
-- step, but for `record_migration`, which locks once for `record_free` and again for
-- `record_allocation`, and is modelled as one step where no other thread comes between the two. The
-- averages of a snapshot are quotients of doubles; `Double`, the conversion's quotient and the zero
-- are parameters of `snapshot`.
pub mod Gauges
pub mod Tiers
mod Tests
use ume.Prelude.{
  ℕ, ◌-◌, max, List, [], ◌∷◌, Option, none, some, Bool, true, false, ◌==◌, if◌then◌else◌, ltb, leb,
  add64, add32, lookup, insert,
}
use ume.Types.Tier

pub record TierStatistics : Type 0 where
  pub current_bytes : ℕ
  pub peak_bytes : ℕ
  pub allocation_count : ℕ
  pub free_count : ℕ

pub record ProcessStatistics : Type 0 where
  pub process_id : ℕ
  pub current_bytes : ℕ
  pub peak_bytes : ℕ
  pub allocation_count : ℕ
  pub free_count : ℕ

pub record StatisticsCollector : Type 0 where
  pub current_ram_bytes : ℕ
  pub peak_ram_bytes : ℕ
  pub current_vram_bytes : ℕ
  pub peak_vram_bytes : ℕ
  pub current_ssd_bytes : ℕ
  pub peak_ssd_bytes : ℕ
  pub total_allocations : ℕ
  pub total_frees : ℕ
  pub total_bytes_allocated : ℕ
  pub total_bytes_freed : ℕ
  pub total_lifetime_ns : ℕ
  pub completed_lifetimes_count : ℕ
  pub tier_stats : List (ℕ × TierStatistics)
  pub process_stats : List (ℕ × ProcessStatistics)

abbrev pub new_tier_statistics : TierStatistics
new_tier_statistics = record {
  current_bytes = 0;
  peak_bytes = 0;
  allocation_count = 0;
  free_count = 0;
}

abbrev pub new_process_statistics : ProcessStatistics
new_process_statistics = record {
  process_id = 0;
  current_bytes = 0;
  peak_bytes = 0;
  allocation_count = 0;
  free_count = 0;
}

abbrev pub new_collector : StatisticsCollector
new_collector = record {
  current_ram_bytes = 0;
  peak_ram_bytes = 0;
  current_vram_bytes = 0;
  peak_vram_bytes = 0;
  current_ssd_bytes = 0;
  peak_ssd_bytes = 0;
  total_allocations = 0;
  total_frees = 0;
  total_bytes_allocated = 0;
  total_bytes_freed = 0;
  total_lifetime_ns = 0;
  completed_lifetimes_count = 0;
  tier_stats = [];
  process_stats = [];
}

abbrev tier_or_new : Option TierStatistics → TierStatistics
tier_or_new none = new_tier_statistics
tier_or_new (some t) = t

abbrev process_or_new : Option ProcessStatistics → ProcessStatistics
process_or_new none = new_process_statistics
process_or_new (some p) = p

abbrev pub tier_statistics : ℕ → StatisticsCollector → TierStatistics
tier_statistics tier c = tier_or_new (lookup tier c.tier_stats)

abbrev pub process_statistics : ℕ → StatisticsCollector → ProcessStatistics
process_statistics pid c = process_or_new (lookup pid c.process_stats)

-- The switch of `record_allocation`: every tier but VRAM and NVMe counts as RAM.
unfoldable pub allocate_gauge : ℕ → ℕ → StatisticsCollector → StatisticsCollector
allocate_gauge tier size c =
    if tier == Tier.vram
    then record c {
      current_vram_bytes = add64 c.current_vram_bytes size;
      peak_vram_bytes = max c.peak_vram_bytes (add64 c.current_vram_bytes size);
    }
    else if tier == Tier.nvme
    then record c {
      current_ssd_bytes = add64 c.current_ssd_bytes size;
      peak_ssd_bytes = max c.peak_ssd_bytes (add64 c.current_ssd_bytes size);
    }
    else record c {
      current_ram_bytes = add64 c.current_ram_bytes size;
      peak_ram_bytes = max c.peak_ram_bytes (add64 c.current_ram_bytes size);
    }

abbrev pub allocate_tier : ℕ → TierStatistics → TierStatistics
allocate_tier size t = record t {
  current_bytes = add64 t.current_bytes size;
  peak_bytes = max t.peak_bytes (add64 t.current_bytes size);
  allocation_count = add64 t.allocation_count 1;
}

abbrev pub allocate_process : ℕ → ℕ → ProcessStatistics → ProcessStatistics
allocate_process pid size p = record p {
  process_id = pid;
  current_bytes = add64 p.current_bytes size;
  peak_bytes = max p.peak_bytes (add64 p.current_bytes size);
  allocation_count = add64 p.allocation_count 1;
}

unfoldable pub record_allocation : ℕ → ℕ → ℕ → StatisticsCollector → StatisticsCollector
record_allocation tier size pid c0 =
    let c = allocate_gauge tier size c0 in
    record c {
      total_allocations = add64 c0.total_allocations 1;
      total_bytes_allocated = add64 c0.total_bytes_allocated size;
      tier_stats = insert tier (allocate_tier size (tier_statistics tier c0)) c0.tier_stats;
      process_stats =
          if pid == 0
          then c0.process_stats
          else insert pid (allocate_process pid size (process_statistics pid c0)) c0.process_stats;
    }

-- What is left when `size` bytes are freed: never below 0.
abbrev pub deduct : ℕ → ℕ → ℕ
deduct current size = if leb size current then current - size else 0

unfoldable pub free_gauge : ℕ → ℕ → StatisticsCollector → StatisticsCollector
free_gauge tier size c =
    if tier == Tier.vram
    then record c { current_vram_bytes = deduct c.current_vram_bytes size }
    else if tier == Tier.nvme
    then record c { current_ssd_bytes = deduct c.current_ssd_bytes size }
    else record c { current_ram_bytes = deduct c.current_ram_bytes size }

abbrev pub free_tier : ℕ → TierStatistics → TierStatistics
free_tier size t = record t {
  current_bytes = deduct t.current_bytes size;
  free_count = add64 t.free_count 1;
}

abbrev pub free_process : ℕ → ProcessStatistics → ProcessStatistics
free_process size p = record p {
  current_bytes = deduct p.current_bytes size;
  free_count = add64 p.free_count 1;
}

unfoldable pub record_free : ℕ → ℕ → ℕ → ℕ → StatisticsCollector → StatisticsCollector
record_free tier size lifetime_ns pid c0 =
    let c = free_gauge tier size c0 in
    record c {
      total_frees = add64 c0.total_frees 1;
      total_bytes_freed = add64 c0.total_bytes_freed size;
      total_lifetime_ns =
          if ltb 0 lifetime_ns
          then add64 c0.total_lifetime_ns lifetime_ns
          else c0.total_lifetime_ns;
      completed_lifetimes_count =
          if ltb 0 lifetime_ns
          then add64 c0.completed_lifetimes_count 1
          else c0.completed_lifetimes_count;
      tier_stats = insert tier (free_tier size (tier_statistics tier c0)) c0.tier_stats;
      process_stats =
          if pid == 0
          then c0.process_stats
          else insert pid (free_process size (process_statistics pid c0)) c0.process_stats;
    }

unfoldable pub record_migration : ℕ → ℕ → ℕ → ℕ → StatisticsCollector → StatisticsCollector
record_migration src_tier tgt_tier bytes pid c =
    record_allocation tgt_tier bytes pid (record_free src_tier bytes 0 pid c)

unfoldable pub reset : StatisticsCollector → StatisticsCollector
reset c = new_collector

-- The operations that change the collector.
pub data Operation : Type 0 where
  allocation : (tier size pid : ℕ) → Operation
  free : (tier size lifetime_ns pid : ℕ) → Operation
  migration : (src_tier tgt_tier bytes pid : ℕ) → Operation
  reset_all : Operation

unfoldable pub perform : Operation → StatisticsCollector → StatisticsCollector
perform (allocation tier size pid) c = record_allocation tier size pid c
perform (free tier size lifetime_ns pid) c = record_free tier size lifetime_ns pid c
perform (migration src_tier tgt_tier bytes pid) c = record_migration src_tier tgt_tier bytes pid c
perform reset_all c = reset c

unfoldable pub perform_all : List Operation → StatisticsCollector → StatisticsCollector
perform_all [] c = c
perform_all (op ∷ ops) c = perform_all ops (perform op c)

module _ (Double : Type 0) (zero_double : Double) (quotient : ℕ → ℕ → Double) where
  pub record MemoryStatisticsSnapshot : Type 0 where
    pub current_ram_bytes : ℕ
    pub peak_ram_bytes : ℕ
    pub current_vram_bytes : ℕ
    pub peak_vram_bytes : ℕ
    pub current_ssd_bytes : ℕ
    pub peak_ssd_bytes : ℕ
    pub total_allocations : ℕ
    pub total_frees : ℕ
    pub total_bytes_allocated : ℕ
    pub total_bytes_freed : ℕ
    pub avg_allocation_size_bytes : Double
    pub avg_lifetime_ns : Double
    pub active_allocations_count : ℕ

  unfoldable pub snapshot : StatisticsCollector → MemoryStatisticsSnapshot
  snapshot c = record {
    current_ram_bytes = c.current_ram_bytes;
    peak_ram_bytes = c.peak_ram_bytes;
    current_vram_bytes = c.current_vram_bytes;
    peak_vram_bytes = c.peak_vram_bytes;
    current_ssd_bytes = c.current_ssd_bytes;
    peak_ssd_bytes = c.peak_ssd_bytes;
    total_allocations = c.total_allocations;
    total_frees = c.total_frees;
    total_bytes_allocated = c.total_bytes_allocated;
    total_bytes_freed = c.total_bytes_freed;
    avg_allocation_size_bytes =
        if ltb 0 c.total_allocations
        then quotient c.total_bytes_allocated c.total_allocations
        else zero_double;
    avg_lifetime_ns =
        if ltb 0 c.completed_lifetimes_count
        then quotient c.total_lifetime_ns c.completed_lifetimes_count
        else zero_double;
    active_allocations_count = deduct c.total_allocations c.total_frees;
  }
