-- ===== src/Placement/Tests.antt =====
-- An engine with a small capacity and two requests.
use ume.Prelude.{ℕ, refl, List, [], ◌∷◌}
use ume.Types.Tier
use ume.Placement.{SchedulingDecision, PlacementEngine, Operation, enqueues, dequeues, new_engine}
use ume.Placement.Queue.{IsPlacement}
use ume.Placement.Fifo.{IsFifo, perform_all-IsFifo}

abbrev decision : ℕ → SchedulingDecision
decision object_id = record {
  object_id = object_id;
  preferred_tier = Tier.vram;
  priority_score = 100;
  reason = 0;
  decision_timestamp = 1;
  allocation_size_bytes = 4096;
}

abbrev engine : PlacementEngine
engine = new_engine 8192 4096 8192

engine-IsPlacement : IsPlacement engine
engine-IsPlacement = record { pending = λ k. refl; different = tt }

abbrev operations : List Operation
operations =
    enqueues 1 (decision 7) ∷ enqueues 2 (decision 7) ∷ enqueues 3 (decision 8) ∷ dequeues ∷ []

perform_all-IsFifo_example : IsFifo operations engine
perform_all-IsFifo_example = perform_all-IsFifo operations engine engine-IsPlacement
