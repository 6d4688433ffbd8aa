-- ===== src/Statistics/Tests.antt =====
-- A collector after a few operations.
use ume.Prelude.{◌-◌, ◌^◌, ◌≡◌, refl, List, [], ◌∷◌, arith}
use ume.Types.Tier
use ume.Statistics.{
  StatisticsCollector, Operation, allocation, free, migration, new_collector, record_migration,
  perform_all,
}
use ume.Statistics.Gauges.{PeaksHold, all_bytes, perform_all-PeaksHold, record_migration-all_bytes}
use ume.Statistics.Tiers.{GaugesAgree, perform_all-GaugesAgree}

abbrev operations : List Operation
operations =
    allocation Tier.vram 4096 1
    ∷ migration Tier.vram Tier.ram 1024 1
    ∷ free Tier.nvme 512 10 2
    ∷ allocation Tier.vram (2 ^ 64 - 1) 0
    ∷ []

perform_all-PeaksHold_example : PeaksHold (perform_all operations new_collector)
perform_all-PeaksHold_example =
    perform_all-PeaksHold operations new_collector
      (record { ram = omega arith; vram = omega arith; ssd = omega arith })

perform_all-GaugesAgree_example : GaugesAgree (perform_all operations new_collector)
perform_all-GaugesAgree_example =
    perform_all-GaugesAgree operations new_collector
      (record { vram = refl; vram_peak = refl; ssd = refl; ssd_peak = refl })

abbrev in_vram : StatisticsCollector
in_vram = record new_collector { current_vram_bytes = 4096; peak_vram_bytes = 4096 }

record_migration-all_bytes_example :
    all_bytes (record_migration Tier.vram Tier.nvme 1024 1 in_vram) ≡ all_bytes in_vram
record_migration-all_bytes_example =
    record_migration-all_bytes Tier.vram Tier.nvme 1024 1 in_vram (omega arith) (omega arith)
