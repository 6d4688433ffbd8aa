-- ===== src/Placement.antt =====
-- `MemoryPlacementEngine` of core/src/event/memory_placement.cpp. `now` is the clock's reading. The
-- set of pending objects is a list; only what it contains matters. Every operation holds the mutex
-- throughout.
pub mod Queue
pub mod Fifo
mod Tests
use ume.Prelude.{
  ℕ, Bool, true, false, not, ◌||◌, List, [], ◌∷◌, ◌++◌, ltb, ◌==◌, if◌then◌else◌, add64, length,
  filter,
}
use ume.Status.{Result, ok, err, invalid_argument, already_exists, not_found, capacity_exceeded}
use ume.Types.Tier

-- `SchedulingDecision` of core/include/ume/event/memory_scheduler.h.
pub record SchedulingDecision : Type 0 where
  pub object_id : ℕ
  pub preferred_tier : ℕ
  pub priority_score : ℕ
  pub reason : ℕ
  pub decision_timestamp : ℕ
  pub allocation_size_bytes : ℕ

pub record PlacementPlan : Type 0 where
  pub plan_id : ℕ
  pub object_id : ℕ
  pub source_tier : ℕ
  pub target_tier : ℕ
  pub size_bytes : ℕ
  pub is_valid : Bool

pub record PlacementRequest : Type 0 where
  pub request_id : ℕ
  pub decision : SchedulingDecision
  pub request_timestamp : ℕ

pub record PlacementEngine : Type 0 where
  pub max_ram : ℕ
  pub max_vram : ℕ
  pub max_ssd : ℕ
  pub current_ram : ℕ
  pub current_vram : ℕ
  pub current_ssd : ℕ
  pub queue : List PlacementRequest
  pub pending_objects : List ℕ
  pub request_id_counter : ℕ
  pub plan_id_counter : ℕ

-- The constructor.
abbrev pub new_engine : ℕ → ℕ → ℕ → PlacementEngine
new_engine max_ram max_vram max_ssd = record {
  max_ram = max_ram;
  max_vram = max_vram;
  max_ssd = max_ssd;
  current_ram = 0;
  current_vram = 0;
  current_ssd = 0;
  queue = [];
  pending_objects = [];
  request_id_counter = 0;
  plan_id_counter = 0;
}

-- The switch of `plan_placement`: whether the capacity of the tier is exceeded.
unfoldable pub exceeds_capacity : SchedulingDecision → PlacementEngine → Bool
exceeds_capacity decision e =
    if decision.preferred_tier == Tier.vram
    then ltb e.max_vram (add64 e.current_vram decision.allocation_size_bytes)
    else if decision.preferred_tier == Tier.nvme
    then ltb e.max_ssd (add64 e.current_ssd decision.allocation_size_bytes)
    else ltb e.max_ram (add64 e.current_ram decision.allocation_size_bytes)

unfoldable pub plan_placement :
    SchedulingDecision → PlacementEngine → Result PlacementPlan × PlacementEngine
plan_placement decision e =
    if decision.object_id == 0 || decision.allocation_size_bytes == 0
    then (err invalid_argument, e)
    else (let plan_id = add64 e.plan_id_counter 1 in
        let counted = record e { plan_id_counter = plan_id } in
        if exceeds_capacity decision e then (err capacity_exceeded, counted) else (
          ok (record {
            plan_id = plan_id;
            object_id = decision.object_id;
            source_tier = Tier.ram;
            target_tier = decision.preferred_tier;
            size_bytes = decision.allocation_size_bytes;
            is_valid = true;
          }),
          counted,
        ))

abbrev pub contains : ℕ → List ℕ → Bool
contains object_id [] = false
contains object_id (k ∷ ks) = (k == object_id) || contains object_id ks

unfoldable pub enqueue_request :
    ℕ → SchedulingDecision → PlacementEngine → Result ℕ × PlacementEngine
enqueue_request now decision e =
    if decision.object_id == 0
    then (err invalid_argument, e)
    else if contains decision.object_id e.pending_objects
    then (err already_exists, e)
    else (let request_id = add64 e.request_id_counter 1 in
        (
          ok request_id,
          record e {
            queue =
                e.queue
                ++ record { request_id = request_id; decision = decision; request_timestamp = now }
                  ∷ [];
            pending_objects = decision.object_id ∷ e.pending_objects;
            request_id_counter = request_id;
          },
        ))

-- What `dequeue_request` does with the queue that it finds.
abbrev pub take_front :
    List PlacementRequest → PlacementEngine → Result PlacementRequest × PlacementEngine
take_front [] e = (err not_found, e)
take_front (r ∷ rs) e = (
  ok r,
  record e {
    queue = rs;
    pending_objects = filter (λ k. not (k == r.decision.object_id)) e.pending_objects;
  },
)

unfoldable pub dequeue_request : PlacementEngine → Result PlacementRequest × PlacementEngine
dequeue_request e = take_front e.queue e

unfoldable pub queue_size : PlacementEngine → ℕ
queue_size e = length e.queue

unfoldable pub clear_queue : PlacementEngine → PlacementEngine
clear_queue e = record e { queue = []; pending_objects = [] }

-- The operations on the queue.
pub data Operation : Type 0 where
  enqueues : (now : ℕ) (decision : SchedulingDecision) → Operation
  dequeues : Operation
  clears : Operation

unfoldable pub perform : Operation → PlacementEngine → PlacementEngine
perform (enqueues now decision) e = (enqueue_request now decision e).1
perform dequeues e = (dequeue_request e).1
perform clears e = clear_queue e

unfoldable pub perform_all : List Operation → PlacementEngine → PlacementEngine
perform_all [] e = e
perform_all (op ∷ ops) e = perform_all ops (perform op e)
