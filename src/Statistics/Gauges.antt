-- ===== src/Statistics/Gauges.antt =====
-- The three gauges: peaks, migrations.
use ume.Prelude.{ℕ, ◌+◌, ◌^◌, ◌≤◌, ◌<◌, ◌≡◌, List, [], ◌∷◌, arith, ◌==◌, if◌then◌else◌}
use ume.Types.Tier
use ume.Statistics.{
  StatisticsCollector, allocate_gauge, free_gauge, record_allocation, record_free, record_migration,
  reset, Operation, allocation, free, migration, reset_all, perform, perform_all,
}

-- A peak is never below what it is the peak of.
pub record PeaksHold (c : StatisticsCollector) : Type 0 where
  pub ram : c.current_ram_bytes ≤ c.peak_ram_bytes
  pub vram : c.current_vram_bytes ≤ c.peak_vram_bytes
  pub ssd : c.current_ssd_bytes ≤ c.peak_ssd_bytes

record_allocation-PeaksHold :
    (tier size pid : ℕ) (c : StatisticsCollector)
    → PeaksHold c
    → PeaksHold (record_allocation tier size pid c)
unfolding record_allocation allocate_gauge
record_allocation-PeaksHold tier size pid c h = record {
  ram = ground (arith, h.ram);
  vram = ground (arith, h.vram);
  ssd = ground (arith, h.ssd);
}

record_free-PeaksHold :
    (tier size lifetime pid : ℕ) (c : StatisticsCollector)
    → PeaksHold c
    → PeaksHold (record_free tier size lifetime pid c)
unfolding record_free free_gauge
record_free-PeaksHold tier size lifetime pid c h = record {
  ram = ground (arith, h.ram);
  vram = ground (arith, h.vram);
  ssd = ground (arith, h.ssd);
}

perform-PeaksHold :
    (op : Operation) (c : StatisticsCollector) → PeaksHold c → PeaksHold (perform op c)
unfolding perform record_migration reset
perform-PeaksHold (allocation tier size pid) c h = record_allocation-PeaksHold tier size pid c h
perform-PeaksHold (free tier size lifetime pid) c h =
    record_free-PeaksHold tier size lifetime pid c h
perform-PeaksHold (migration src tgt bytes pid) c h =
    record_allocation-PeaksHold tgt bytes pid (record_free src bytes 0 pid c)
      (record_free-PeaksHold src bytes 0 pid c h)
perform-PeaksHold reset_all c h = record {
  ram = omega arith;
  vram = omega arith;
  ssd = omega arith;
}

-- After any sequence of allocations, frees, migrations and resets, also with counters that wrap,
-- none of the three peaks is below the current figure beside it.
pub perform_all-PeaksHold :
    (ops : List Operation) (c : StatisticsCollector) → PeaksHold c → PeaksHold (perform_all ops c)
unfolding perform_all
perform_all-PeaksHold [] c h = h
perform_all-PeaksHold (op ∷ ops) c h =
    perform_all-PeaksHold ops (perform op c) (perform-PeaksHold op c h)

-- The gauge that a tier counts towards.
abbrev pub gauge : ℕ → StatisticsCollector → ℕ
gauge tier c =
    if tier == Tier.vram
    then c.current_vram_bytes
    else if tier == Tier.nvme
    then c.current_ssd_bytes
    else c.current_ram_bytes

abbrev pub all_bytes : StatisticsCollector → ℕ
all_bytes c = c.current_ram_bytes + c.current_vram_bytes + c.current_ssd_bytes

-- A migration of at most the bytes that the source's gauge holds leaves the sum of the three gauges
-- as it was, provided that the sum fits 64 bits, for any two tiers, equal ones included.
pub record_migration-all_bytes :
    (src tgt bytes pid : ℕ) (c : StatisticsCollector)
    → bytes ≤ gauge src c
    → all_bytes c < 2 ^ 64
    → all_bytes (record_migration src tgt bytes pid c) ≡ all_bytes c
unfolding record_migration record_allocation record_free allocate_gauge free_gauge
record_migration-all_bytes src tgt bytes pid c h small = ground arith
