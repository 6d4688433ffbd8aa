-- ===== src/Optimizer/Pass.antt =====
-- `MemoryOptimizer::optimize_pass`. A pass holds the optimizer's mutex throughout; the placement
-- engine has its own, so that other threads come in before each task that is offered to it:
-- `others` is what they do to it, and `placed_at` what it reads of the clock.
use ume.Prelude.{
  ℕ, Bool, ◌&&◌, Option, none, some, List, [], ◌∷◌, ◌++◌, ◌==◌, if◌then◌else◌, add64, length,
  lookup, insert,
}
use ume.Floating.{Doubles, greatest}
use ume.Status.{Result, ok, err}
use ume.Types.Tier
use ume.Placement.{SchedulingDecision, PlacementEngine, enqueue_request}
use ume.Optimizer.{
  ResidencyInfo, MigrationTask, OptimizerMetrics, MemoryOptimizer, estimate_migration_cost,
}

module _ (d : Doubles) where
  -- The temperature that is left after a pass.
  abbrev pub aged : d.Double → ResidencyInfo d → ResidencyInfo d
  aged decay_rate res = record res {
    temperature =
        greatest d (d.of_nat 0) (d.minus res.temperature (d.times res.temperature decay_rate));
  }

  abbrev pub is_cold_in_vram : ResidencyInfo d → Bool
  is_cold_in_vram res = d.less res.temperature (d.of_nat 20) && res.current_tier == Tier.vram

  abbrev pub is_hot_in_ram : ResidencyInfo d → Bool
  is_hot_in_ram res = d.less (d.of_nat 80) res.temperature && res.current_tier == Tier.ram

  abbrev pub migration : ℕ → ResidencyInfo d → ℕ → ℕ → ℕ → MigrationTask d
  migration task_id res src dst priority = record {
    task_id = task_id;
    object_id = res.object_id;
    source_tier = src;
    target_tier = dst;
    size_bytes = res.size_bytes;
    cost_estimate_us = estimate_migration_cost d src dst res.size_bytes;
    priority = priority;
  }

  -- The task that an object makes with the next number, if any.
  abbrev pub task_for : ℕ → ResidencyInfo d → List (MigrationTask d)
  task_for task_id res =
      if is_cold_in_vram res
      then migration task_id res Tier.vram Tier.ram 50 ∷ []
      else if is_hot_in_ram res
      then migration task_id res Tier.ram Tier.vram 150 ∷ []
      else []

  -- The first loop of a pass: the aged map, and the tasks that it makes, numbered from the counter
  -- on.
  pub record Aging : Type 0 where
    pub residency_map : List (ℕ × ResidencyInfo d)
    pub tasks : List (MigrationTask d)
    pub task_id_counter : ℕ

  abbrev pub age_all : d.Double → List (ℕ × ResidencyInfo d) → ℕ → Aging
  age_all decay_rate [] counter = record {
    residency_map = [];
    tasks = [];
    task_id_counter = counter;
  }
  age_all decay_rate ((k, res) ∷ residency) counter =
      let tasks = task_for (add64 counter 1) (aged decay_rate res) in
      let rest = age_all decay_rate residency (add64 counter (length tasks)) in
      record {
        residency_map = (k, aged decay_rate res) ∷ rest.residency_map;
        tasks = tasks ++ rest.tasks;
        task_id_counter = rest.task_id_counter;
      }

  abbrev pub decision_of : MigrationTask d → SchedulingDecision
  decision_of task = record {
    object_id = task.object_id;
    preferred_tier = task.target_tier;
    priority_score = task.priority;
    reason = 0;
    decision_timestamp = 0;
    allocation_size_bytes = task.size_bytes;
  }

  -- What the second loop of a pass works on.
  pub record Work : Type 0 where
    pub residency_map : List (ℕ × ResidencyInfo d)
    pub metrics : OptimizerMetrics
    pub placement : PlacementEngine
    pub remaining : List (MigrationTask d)

  abbrev pub moved :
      ℕ → ℕ → Option (ResidencyInfo d) → List (ℕ × ResidencyInfo d) → List (ℕ × ResidencyInfo d)
  moved object_id tier none residency = residency
  moved object_id tier (some res) residency =
      insert object_id (record res { current_tier = tier }) residency

  abbrev pub settle : MigrationTask d → Result ℕ → Work → Work
  settle task (ok id) w = record w {
    residency_map =
        moved task.object_id task.target_tier (lookup task.object_id w.residency_map)
          w.residency_map;
    metrics = record (w.metrics) {
      migrations_completed = add64 w.metrics.migrations_completed 1;
      total_migration_time_us =
          add64 w.metrics.total_migration_time_us (d.to_uint64 task.cost_estimate_us);
      total_bandwidth_used_bytes = add64 w.metrics.total_bandwidth_used_bytes task.size_bytes;
    };
  }
  settle task (err s) w = record w {
    metrics = record (w.metrics) { migrations_cancelled = add64 w.metrics.migrations_cancelled 1 };
    remaining = w.remaining ++ task ∷ [];
  }

  module _ (placed_at : MigrationTask d → ℕ)
      (others : MigrationTask d → PlacementEngine → PlacementEngine) where
    abbrev pub process : MigrationTask d → Work → Work
    process task w =
        let (answer, placement) =
          enqueue_request (placed_at task) (decision_of task) (others task w.placement) in
        settle task answer (record w {
          placement = placement;
          metrics = record (w.metrics) {
            migrations_attempted = add64 w.metrics.migrations_attempted 1;
          };
        })

    abbrev pub process_all : List (MigrationTask d) → Work → Work
    process_all [] w = w
    process_all (task ∷ tasks) w = process_all tasks (process task w)

    unfoldable pub optimize_pass :
        MemoryOptimizer d → PlacementEngine → MemoryOptimizer d × PlacementEngine
    optimize_pass o placement =
        let aging = age_all o.decay_rate o.residency_map o.task_id_counter in
        let w = process_all (o.pending_migrations ++ aging.tasks) (record {
          residency_map = aging.residency_map;
          metrics = o.metrics;
          placement = placement;
          remaining = [];
        }) in
        (
          record o {
            residency_map = w.residency_map;
            pending_migrations = w.remaining;
            task_id_counter = aging.task_id_counter;
            metrics = w.metrics;
          },
          w.placement,
        )
