-- ===== src/Types/Tier.antt =====
-- `TierClass` of core/include/ume/types.h.
use ume.Prelude.{ℕ}

abbrev pub vram : ℕ
vram = 0

abbrev pub ram : ℕ
ram = 1

abbrev pub pinned_ram : ℕ
pinned_ram = 2

abbrev pub compressed_ram : ℕ
compressed_ram = 3

abbrev pub nvme : ℕ
nvme = 4

abbrev pub remote : ℕ
remote = 5

abbrev pub unified : ℕ
unified = 6

abbrev pub cxl : ℕ
cxl = 7
