-- ===== src/Prefetch/Worker.antt =====
-- The worker of the prefetch engine, and the threads that use the engine beside it. `stop` is cut
-- where it lets go of the lock and waits for the worker.
use ume.Prelude.{
  ℕ, Bool, true, false, ◌&&◌, Option, none, some, List, [], ◌∷◌, ltb, if◌then◌else◌, add64,
}
use ume.Floating.{Doubles}
use ume.Status.{Result, ok, err, already_initialized}
use ume.Placement.{SchedulingDecision, PlacementEngine, enqueue_request}
use ume.Prefetch.{
  PrefetchRequest, PrefetchEngine, record_access, submit_prefetches, cancel_prefetch,
}

-- Where the worker's thread is. It has no request in its hands at the head of its loop; a thread
-- that has left the loop waits to be joined.
pub data Worker (d : Doubles) : Type 0 where
  absent : Worker d
  at_loop : Worker d
  has_request : PrefetchRequest d → Worker d
  finished : Worker d

pub record PrefetchSystem (d : Doubles) : Type 0 where
  pub engine : PrefetchEngine d
  pub worker : Worker d
  pub placement : PlacementEngine

-- The decision that the worker makes of a request.
abbrev pub decision_of : {d : Doubles} → PrefetchRequest d → SchedulingDecision
decision_of req = record {
  object_id = req.object_id;
  preferred_tier = req.target_tier;
  priority_score = req.priority;
  reason = 0;
  decision_timestamp = 0;
  allocation_size_bytes = 4096;
}

module _ (d : Doubles) where
  abbrev pub started : Worker d → PrefetchSystem d → Option (Result (Unit {0}) × PrefetchSystem d)
  started absent s =
      some (ok tt, record s { engine = record (s.engine) { is_running = true }; worker = at_loop })
  started at_loop s = none
  started (has_request r) s = none
  started finished s = none

  -- `start`: no answer where a thread that was not joined is assigned to, which ends the process.
  abbrev pub start : PrefetchSystem d → Option (Result (Unit {0}) × PrefetchSystem d)
  start s = if s.engine.is_running then some (err already_initialized, s) else started s.worker s

  -- `stop` under its lock; it always answers `kOk`.
  abbrev pub ask_to_stop : PrefetchSystem d → PrefetchSystem d
  ask_to_stop s = record s { engine = record (s.engine) { is_running = false } }

  -- The rest of `stop`, which waits for the worker to have left its loop.
  abbrev pub joined : Worker d → Worker d
  joined absent = absent
  joined at_loop = at_loop
  joined (has_request r) = has_request r
  joined finished = absent

  -- The part of the loop under the lock, after the test of the loop.
  abbrev pub take_request : List (PrefetchRequest d) → PrefetchSystem d → PrefetchSystem d
  take_request [] s = record s { worker = at_loop }
  take_request (req ∷ rest) s = record s {
    worker = has_request req;
    engine = record (s.engine) { prefetch_queue = rest };
  }

  abbrev pub route_answered : PrefetchRequest d → Result ℕ → PrefetchEngine d → PrefetchEngine d
  route_answered req (ok id) e = record e {
    metrics = record (e.metrics) {
      requests_issued = add64 e.metrics.requests_issued 1;
      prefetch_hits = add64 e.metrics.prefetch_hits 1;
      total_confidence_sum_scaled =
          add64 e.metrics.total_confidence_sum_scaled
            (d.to_uint64 (d.times req.confidence (d.of_nat 1000)));
    };
  }
  route_answered req (err s) e = record e {
    metrics = record (e.metrics) { prefetch_misses = add64 e.metrics.prefetch_misses 1 };
  }

  abbrev pub is_expired : ℕ → PrefetchRequest d → Bool
  is_expired now req = ltb 0 req.expiration && ltb req.expiration now

  -- The part of the loop behind the lock. `placed_at` is what the placement engine reads of the
  -- clock.
  abbrev pub route_request : ℕ → ℕ → PrefetchRequest d → PrefetchSystem d → PrefetchSystem d
  route_request now placed_at req s =
      let (answer, placement) = enqueue_request placed_at (decision_of req) s.placement in
      if is_expired now req
      then record s {
        worker = at_loop;
        engine = record (s.engine) {
          metrics = record (s.engine.metrics) {
            requests_cancelled = add64 s.engine.metrics.requests_cancelled 1;
          };
        };
      }
      else record {
        worker = at_loop;
        engine = route_answered req answer s.engine;
        placement = placement;
      }

  abbrev pub worker_step : ℕ → ℕ → Worker d → PrefetchSystem d → PrefetchSystem d
  worker_step now placed_at absent s = s
  worker_step now placed_at at_loop s =
      if s.engine.is_running
      then take_request s.engine.prefetch_queue s
      else record s { worker = finished }
  worker_step now placed_at (has_request req) s = route_request now placed_at req s
  worker_step now placed_at finished s = s

  -- What the threads do, one after the other.
  pub data Action : Type 0 where
    records : (now object_id virtual_address : ℕ) → Action
    submits : List (PrefetchRequest d) → Action
    cancels : (object_id : ℕ) → Action
    starts asks_to_stop joins : Action
    works : (now placed_at : ℕ) → Action

  abbrev pub on_engine : (PrefetchEngine d → PrefetchEngine d) → PrefetchSystem d → PrefetchSystem d
  on_engine f s = record s { engine = f s.engine }

  abbrev pub system_of : Option (Result (Unit {0}) × PrefetchSystem d) → Option (PrefetchSystem d)
  system_of none = none
  system_of (some (answer, s)) = some s

  abbrev pub act : Action → PrefetchSystem d → Option (PrefetchSystem d)
  act (records now object_id virtual_address) s =
      some (on_engine (record_access d now object_id virtual_address) s)
  act (submits requests) s = some (on_engine (submit_prefetches d requests) s)
  act (cancels object_id) s = some (on_engine (cancel_prefetch d object_id) s)
  act starts s = system_of (start s)
  act asks_to_stop s = some (ask_to_stop s)
  act joins s = some (record s { worker = joined s.worker })
  act (works now placed_at) s = some (worker_step now placed_at s.worker s)

  abbrev pub act_all : List Action → Option (PrefetchSystem d) → Option (PrefetchSystem d)
  act_all actions none = none
  act_all [] (some s) = some s
  act_all (a ∷ actions) (some s) = act_all actions (act a s)
