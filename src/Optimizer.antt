-- ===== src/Optimizer.antt =====
-- `MemoryOptimizer` of core/src/event/memory_optimizer.cpp: what is kept of each object and of
-- each migration. The statistics and the bandwidth that the class is given are kept and not used.
pub mod Lifecycle
pub mod Pass
pub mod Tiers
pub mod Refine
mod Tests
use ume.Prelude.{
  ℕ, zero, suc, ◌+◌, ◌-◌, ◌*◌, ◌/◌, ◌%◌, ◌^◌, ◌≤◌, ◌<◌, min, max, bit_and, bit_or, bit_xor, ◌≡◌,
  refl, sym, ap, ap₂, subst, ◌∙◌, ◌≢◌, ◌↔◌, ◌⊎◌, inl, inr, Bool, true, false, not, ◌&&◌, ◌||◌,
  Option, none, some, List, [], ◌∷◌, ◌++◌, map, append_assoc, append-nil, arith, dec_lt, dec_le,
  ℕ_discrete, ltb, leb, ◌==◌, if◌then◌else◌, ltb→lt, lt→ltb, le→ltb, ==_iff, ==_refl, ne→==,
  Bool-cases, Option-cases, add64, add32, sub64, length, get_or, get_elem?, set, take, drop,
  replicate, filter, all, length-append, length-filter-le, filter-append, lookup, insert, erase,
  Fresh, IsMap, total, lookup-insert, lookup-Fresh, Fresh-lookup, lookup-erase, insert-IsMap,
  Fresh-insert, Fresh-erase, erase-IsMap, total-insert_fresh, total-erase, total-insert_old,
  length-insert_fresh, put, put_same, put_other, get_elem?-append, get_elem?-last, drop-append_le,
  take_exact, drop-append, take-append,
}
use ume.Floating.{Doubles, least, greatest}
use ume.Status.{Result, ok, err, not_found}
use ume.Types.Tier

pub record ResidencyInfo (d : Doubles) : Type 0 where
  pub object_id : ℕ
  pub current_tier : ℕ
  pub last_access_time : ℕ
  pub access_count : ℕ
  pub temperature : d.Double
  pub size_bytes : ℕ

pub record MigrationTask (d : Doubles) : Type 0 where
  pub task_id : ℕ
  pub object_id : ℕ
  pub source_tier : ℕ
  pub target_tier : ℕ
  pub size_bytes : ℕ
  pub cost_estimate_us : d.Double
  pub priority : ℕ

pub record OptimizerMetrics : Type 0 where
  pub migrations_attempted : ℕ
  pub migrations_completed : ℕ
  pub migrations_cancelled : ℕ
  pub total_migration_time_us : ℕ
  pub total_bandwidth_used_bytes : ℕ

pub record MemoryOptimizer (d : Doubles) : Type 0 where
  pub max_bandwidth_sec : ℕ
  pub decay_rate : d.Double
  pub residency_map : List (ℕ × ResidencyInfo d)
  pub pending_migrations : List (MigrationTask d)
  pub task_id_counter : ℕ
  pub is_running : Bool
  pub metrics : OptimizerMetrics

module _ (d : Doubles) where
  abbrev pub new_optimizer : ℕ → MemoryOptimizer d
  new_optimizer max_migration_bandwidth_bytes_sec = record {
    max_bandwidth_sec = max_migration_bandwidth_bytes_sec;
    decay_rate = d.fraction 5 100;
    residency_map = [];
    pending_migrations = [];
    task_id_counter = 0;
    is_running = false;
    metrics = record {
      migrations_attempted = 0;
      migrations_completed = 0;
      migrations_cancelled = 0;
      total_migration_time_us = 0;
      total_bandwidth_used_bytes = 0;
    };
  }

  -- `residency_map_[raw_id]`.
  abbrev pub residency_or_new : Option (ResidencyInfo d) → ResidencyInfo d
  residency_or_new none = record {
    object_id = 0;
    current_tier = Tier.ram;
    last_access_time = 0;
    access_count = 0;
    temperature = d.of_nat 50;
    size_bytes = 0;
  }
  residency_or_new (some res) = res

  unfoldable pub record_access : ℕ → ℕ → ℕ → ℕ → MemoryOptimizer d → MemoryOptimizer d
  record_access now object_id size_bytes tier o =
      let res = residency_or_new (lookup object_id o.residency_map) in
      record o {
        residency_map =
            insert object_id
              (record {
                object_id = object_id;
                size_bytes = size_bytes;
                current_tier = tier;
                last_access_time = now;
                access_count = add32 res.access_count 1;
                temperature = least d (d.of_nat 100) (d.plus res.temperature (d.of_nat 10));
              })
              o.residency_map;
      }

  unfoldable pub estimate_migration_cost : ℕ → ℕ → ℕ → d.Double
  estimate_migration_cost src dst size =
      let bw_us_per_byte =
        if (src == Tier.vram) && (dst == Tier.ram)
        then d.fraction 5 100000
        else if (src == Tier.ram) && (dst == Tier.vram)
        then d.fraction 5 100000
        else if (src == Tier.ram) && (dst == Tier.nvme)
        then d.fraction 4 10000
        else d.fraction 1 10000 in
      d.plus (d.times (d.of_nat size) bw_us_per_byte) (d.of_nat 10)

  abbrev pub residency_found : Option (ResidencyInfo d) → Result (ResidencyInfo d)
  residency_found none = err not_found
  residency_found (some res) = ok res

  unfoldable pub get_residency : ℕ → MemoryOptimizer d → Result (ResidencyInfo d)
  get_residency object_id o = residency_found (lookup object_id o.residency_map)

  abbrev pub set_decay_rate : d.Double → MemoryOptimizer d → MemoryOptimizer d
  set_decay_rate decay_rate o = record o { decay_rate = decay_rate }
