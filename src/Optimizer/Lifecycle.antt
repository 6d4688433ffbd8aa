-- ===== src/Optimizer/Lifecycle.antt =====
-- `start` and `stop` of the optimizer, and its worker. `stop` is cut where it lets go of the lock
-- and waits for the worker.
use ume.Prelude.{ℕ, true, false, Option, none, some, if◌then◌else◌}
use ume.Floating.{Doubles}
use ume.Status.{Result, ok, err, already_initialized}
use ume.Placement.{PlacementEngine}
use ume.Optimizer.{MigrationTask, MemoryOptimizer}
use ume.Optimizer.Pass.{optimize_pass}

-- Where the worker's thread is: a thread that has left the loop waits to be joined.
pub data Worker : Type 0 where
  absent at_loop finished : Worker

module _ (d : Doubles) where
  pub record OptimizerSystem : Type 0 where
    pub optimizer : MemoryOptimizer d
    pub worker : Worker
    pub placement : PlacementEngine

  abbrev pub started : Worker → OptimizerSystem → Option (Result (Unit {0}) × OptimizerSystem)
  started absent s =
      some (
        ok tt,
        record s { optimizer = record (s.optimizer) { is_running = true }; worker = at_loop },
      )
  started at_loop s = none
  started finished s = none

  -- No answer where a thread that was not joined is assigned to, which ends the process.
  abbrev pub start : OptimizerSystem → Option (Result (Unit {0}) × OptimizerSystem)
  start s = if s.optimizer.is_running then some (err already_initialized, s) else started s.worker s

  -- `stop` under its lock; it always answers `kOk`.
  abbrev pub ask_to_stop : OptimizerSystem → OptimizerSystem
  ask_to_stop s = record s { optimizer = record (s.optimizer) { is_running = false } }

  -- The rest of `stop`, which waits for the worker to have left its loop.
  abbrev pub joined : Worker → Worker
  joined absent = absent
  joined at_loop = at_loop
  joined finished = absent

  -- A round of `worker_loop`.
  abbrev pub worker_step :
      (MigrationTask d → ℕ)
      → (MigrationTask d → PlacementEngine → PlacementEngine)
      → Worker
      → OptimizerSystem
      → OptimizerSystem
  worker_step placed_at others absent s = s
  worker_step placed_at others at_loop s =
      let (optimizer, placement) = optimize_pass d placed_at others s.optimizer s.placement in
      if s.optimizer.is_running
      then record s { optimizer = optimizer; placement = placement }
      else record s { worker = finished }
  worker_step placed_at others finished s = s
