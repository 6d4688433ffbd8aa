-- ===== src/Prefetch.antt =====
-- `PrefetchEngine` of core/src/event/prefetch_engine.cpp. Operations are made one at a time, as the
-- mutex makes them; the worker is cut at the end of its lock, where other threads come between.
-- `now` is what the clock reads. The difference of two addresses wraps around on 64 bits.
pub mod Locality
pub mod Worker
pub mod Accounts
mod Tests
use ume.Prelude.{
  ℕ, zero, suc, ◌+◌, ◌-◌, ◌*◌, ◌/◌, ◌%◌, ◌^◌, ◌≤◌, ◌<◌, min, max, bit_and, bit_or, bit_xor, ◌≡◌,
  refl, sym, ap, ap₂, subst, ◌∙◌, ◌≢◌, ◌↔◌, ◌⊎◌, inl, inr, Bool, true, false, not, ◌&&◌, ◌||◌,
  Option, none, some, List, [], ◌∷◌, ◌++◌, map, append_assoc, append-nil, arith, dec_lt, dec_le,
  ℕ_discrete, ltb, leb, ◌==◌, if◌then◌else◌, ltb→lt, lt→ltb, le→ltb, ==_iff, ==_refl, ne→==,
  Bool-cases, Option-cases, add64, add32, sub64, length, get_or, get_elem?, set, take, drop,
  replicate, filter, all, length-append, length-filter-le, filter-append, lookup, insert, erase,
  Fresh, IsMap, total, lookup-insert, lookup-Fresh, Fresh-lookup, lookup-erase, insert-IsMap,
  Fresh-insert, Fresh-erase, erase-IsMap, total-insert_fresh, total-erase, total-insert_old,
  length-insert_fresh, put, put_same, put_other, get_elem?-append, get_elem?-last, drop-append_le,
  take_exact, drop-append, take-append,
}
use ume.Floating.{Doubles}
use ume.Status.{Status, Result, ok, err}
use ume.Types.Tier

pub record PrefetchRequest (d : Doubles) : Type 0 where
  pub request_id : ℕ
  pub object_id : ℕ
  pub target_tier : ℕ
  pub confidence : d.Double
  pub priority : ℕ
  pub expiration : ℕ
  pub estimated_benefit_us : ℕ
  pub estimated_cost_us : ℕ

pub record PrefetchMetrics : Type 0 where
  pub requests_issued : ℕ
  pub requests_cancelled : ℕ
  pub prefetch_hits : ℕ
  pub prefetch_misses : ℕ
  pub total_confidence_sum_scaled : ℕ
  pub total_queue_latency_us : ℕ
  pub bandwidth_consumed_bytes : ℕ

pub record PrefetchEngine (d : Doubles) : Type 0 where
  pub prefetch_queue : List (PrefetchRequest d)
  pub access_history : List (ℕ × List ℕ)
  pub is_running : Bool
  pub request_id_counter : ℕ
  pub metrics : PrefetchMetrics

-- `access_history_[raw_id]`.
abbrev pub history_or_empty : Option (List ℕ) → List ℕ
history_or_empty none = []
history_or_empty (some history) = history

-- The history with one more address: only the last five are kept.
abbrev pub remembered : List ℕ → ℕ → List ℕ
remembered history address =
    let longer = history ++ address ∷ [] in if ltb 5 (length longer) then drop 1 longer else longer

-- The part of `analyze_locality` that looks at the last three addresses.
abbrev pub detects_stride : List ℕ → Bool
detects_stride history =
    let size = length history in
    let stride1 = sub64 (get_or history (size - 1) 0) (get_or history (size - 2) 0) in
    let stride2 = sub64 (get_or history (size - 2) 0) (get_or history (size - 3) 0) in
    if ltb size 3 then false else stride1 == stride2 && not (stride1 == 0)

module _ (d : Doubles) where
  abbrev pub new_prefetch_engine : PrefetchEngine d
  new_prefetch_engine = record {
    prefetch_queue = [];
    access_history = [];
    is_running = false;
    request_id_counter = 0;
    metrics = record {
      requests_issued = 0;
      requests_cancelled = 0;
      prefetch_hits = 0;
      prefetch_misses = 0;
      total_confidence_sum_scaled = 0;
      total_queue_latency_us = 0;
      bandwidth_consumed_bytes = 0;
    };
  }

  -- A request gets the next number and the last place in the queue.
  abbrev pub push_request : PrefetchRequest d → PrefetchEngine d → PrefetchEngine d
  push_request r e =
      let request_id = add64 e.request_id_counter 1 in
      record e {
        request_id_counter = request_id;
        prefetch_queue = e.prefetch_queue ++ record r { request_id = request_id } ∷ [];
      }

  abbrev pub stride_request : ℕ → ℕ → PrefetchRequest d
  stride_request now object_id = record {
    request_id = 0;
    object_id = object_id;
    target_tier = Tier.vram;
    confidence = d.fraction 85 100;
    priority = 180;
    expiration = add64 now 1000000000;
    estimated_benefit_us = 120;
    estimated_cost_us = 20;
  }

  unfoldable pub analyze_locality : ℕ → ℕ → PrefetchEngine d → PrefetchEngine d
  analyze_locality now object_id e =
      if detects_stride (history_or_empty (lookup object_id e.access_history))
      then push_request (stride_request now object_id) e
      else e

  unfoldable pub record_access : ℕ → ℕ → ℕ → PrefetchEngine d → PrefetchEngine d
  record_access now object_id virtual_address e =
      let history = history_or_empty (lookup object_id e.access_history) in
      analyze_locality now object_id (record e {
        access_history = insert object_id (remembered history virtual_address) e.access_history;
      })

  -- It always answers `kOk`.
  abbrev pub submit_prefetches : List (PrefetchRequest d) → PrefetchEngine d → PrefetchEngine d
  submit_prefetches [] e = e
  submit_prefetches (r ∷ rs) e = submit_prefetches rs (push_request r e)

  abbrev pub is_for : ℕ → PrefetchRequest d → Bool
  is_for object_id r = r.object_id == object_id

  -- The number of requests for an object.
  abbrev pub requests_for : ℕ → List (PrefetchRequest d) → ℕ
  requests_for object_id [] = 0
  requests_for object_id (r ∷ rs) =
      let rest = requests_for object_id rs in if is_for object_id r then suc rest else rest

  unfoldable pub cancel_prefetch : ℕ → PrefetchEngine d → PrefetchEngine d
  cancel_prefetch object_id e = record e {
    prefetch_queue = filter (λ r. not (is_for object_id r)) e.prefetch_queue;
    metrics = record (e.metrics) {
      requests_cancelled =
          add64 e.metrics.requests_cancelled (requests_for object_id e.prefetch_queue);
    };
  }

  abbrev pub queue_size : PrefetchEngine d → ℕ
  queue_size e = length e.prefetch_queue
