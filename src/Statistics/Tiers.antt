-- ===== src/Statistics/Tiers.antt =====
-- The entries of the tiers against the gauges.
use ume.Prelude.{ℕ, ◌≡◌, refl, List, [], ◌∷◌, arith, lookup-insert}
use ume.Types.Tier
use ume.Statistics.{
  StatisticsCollector, tier_statistics, allocate_gauge, free_gauge, allocate_tier, free_tier,
  record_allocation, record_free, record_migration, reset, Operation, allocation, free, migration,
  reset_all, perform, perform_all,
}

-- The gauges of VRAM and SSD show what the entries of their tiers show.
pub record GaugesAgree (c : StatisticsCollector) : Type 0 where
  pub vram : (tier_statistics Tier.vram c).current_bytes ≡ c.current_vram_bytes
  pub vram_peak : (tier_statistics Tier.vram c).peak_bytes ≡ c.peak_vram_bytes
  pub ssd : (tier_statistics Tier.nvme c).current_bytes ≡ c.current_ssd_bytes
  pub ssd_peak : (tier_statistics Tier.nvme c).peak_bytes ≡ c.peak_ssd_bytes

record_allocation-GaugesAgree :
    (tier size pid : ℕ) (c : StatisticsCollector)
    → GaugesAgree c
    → GaugesAgree (record_allocation tier size pid c)
unfolding record_allocation allocate_gauge
record_allocation-GaugesAgree tier size pid c h =
    let t = allocate_tier size (tier_statistics tier c) in
    let at_vram = lookup-insert tier Tier.vram t c.tier_stats in
    let at_ssd = lookup-insert tier Tier.nvme t c.tier_stats in
    record {
      vram = ground (arith, at_vram, h.vram);
      vram_peak = ground (arith, at_vram, h.vram, h.vram_peak);
      ssd = ground (arith, at_ssd, h.ssd);
      ssd_peak = ground (arith, at_ssd, h.ssd, h.ssd_peak);
    }

record_free-GaugesAgree :
    (tier size lifetime pid : ℕ) (c : StatisticsCollector)
    → GaugesAgree c
    → GaugesAgree (record_free tier size lifetime pid c)
unfolding record_free free_gauge
record_free-GaugesAgree tier size lifetime pid c h =
    let t = free_tier size (tier_statistics tier c) in
    let at_vram = lookup-insert tier Tier.vram t c.tier_stats in
    let at_ssd = lookup-insert tier Tier.nvme t c.tier_stats in
    record {
      vram = ground (arith, at_vram, h.vram);
      vram_peak = ground (arith, at_vram, h.vram_peak);
      ssd = ground (arith, at_ssd, h.ssd);
      ssd_peak = ground (arith, at_ssd, h.ssd_peak);
    }

perform-GaugesAgree :
    (op : Operation) (c : StatisticsCollector) → GaugesAgree c → GaugesAgree (perform op c)
unfolding perform record_migration reset
perform-GaugesAgree (allocation tier size pid) c h = record_allocation-GaugesAgree tier size pid c h
perform-GaugesAgree (free tier size lifetime pid) c h =
    record_free-GaugesAgree tier size lifetime pid c h
perform-GaugesAgree (migration src tgt bytes pid) c h =
    record_allocation-GaugesAgree tgt bytes pid (record_free src bytes 0 pid c)
      (record_free-GaugesAgree src bytes 0 pid c h)
perform-GaugesAgree reset_all c h = record {
  vram = refl;
  vram_peak = refl;
  ssd = refl;
  ssd_peak = refl;
}

-- After any sequence of allocations, frees, migrations and resets, also with counters that wrap,
-- the VRAM and SSD figures of a snapshot are those that `tier_statistics` gives for these tiers.
pub perform_all-GaugesAgree :
    (ops : List Operation) (c : StatisticsCollector)
    → GaugesAgree c
    → GaugesAgree (perform_all ops c)
unfolding perform_all
perform_all-GaugesAgree [] c h = h
perform_all-GaugesAgree (op ∷ ops) c h =
    perform_all-GaugesAgree ops (perform op c) (perform-GaugesAgree op c h)
