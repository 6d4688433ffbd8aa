-- ===== src/Analyzer.antt =====
-- `EventAnalyzer` of core/src/event/event_analyzer.cpp. The collector that it is given may be
-- shared: it is passed in and out, `none` for a null pointer. Every operation holds the mutex
-- throughout. `AnalysisContext::total_leaks_detected` is set only in the copy that `context`
-- returns.
pub mod Live
pub mod Bytes
mod Tests
use ume.Prelude.{
  ℕ, max, Bool, true, false, Option, none, some, List, [], ◌∷◌, map, ltb, ◌==◌, if◌then◌else◌,
  add64, length, lookup, insert, erase,
}
use ume.Status.{Result, ok, err, not_found}
use ume.Event.{Event, object_size_bytes, object_preferred_tier}
use ume.Types.EventType
use ume.Types.Tier
use ume.Statistics.{StatisticsCollector, record_allocation, record_free, deduct}

-- `thread_id` is never set.
pub record ActiveAllocation : Type 0 where
  pub object_id : ℕ
  pub size_bytes : ℕ
  pub allocated_timestamp : ℕ
  pub tier : ℕ
  pub process_id : ℕ
  pub thread_id : ℕ

pub record AnalysisContext : Type 0 where
  pub total_events_processed : ℕ
  pub active_allocations_count : ℕ
  pub active_bytes : ℕ
  pub peak_bytes : ℕ
  pub total_leaks_detected : ℕ
  pub out_of_order_events : ℕ

pub record EventAnalyzer : Type 0 where
  pub active_map : List (ℕ × ActiveAllocation)
  pub context : AnalysisContext
  pub last_timestamp : ℕ

abbrev pub empty_context : AnalysisContext
empty_context = record {
  total_events_processed = 0;
  active_allocations_count = 0;
  active_bytes = 0;
  peak_bytes = 0;
  total_leaks_detected = 0;
  out_of_order_events = 0;
}

abbrev pub new_analyzer : EventAnalyzer
new_analyzer = record { active_map = []; context = empty_context; last_timestamp = 0 }

abbrev pub allocation_of : Event → ActiveAllocation
allocation_of event = record {
  object_id = event.header.object_id;
  size_bytes = object_size_bytes event;
  allocated_timestamp = event.header.timestamp;
  tier = object_preferred_tier event;
  process_id = event.header.sequence_num;
  thread_id = 0;
}

abbrev pub collect_allocation : Event → Option StatisticsCollector → Option StatisticsCollector
collect_allocation event none = none
collect_allocation event (some c) = some (
    record_allocation (object_preferred_tier event) (object_size_bytes event)
      event.header.sequence_num c)

unfoldable pub handle_object_created :
    Event → EventAnalyzer → Option StatisticsCollector → EventAnalyzer × Option StatisticsCollector
handle_object_created event a c =
    let allocations = insert event.header.object_id (allocation_of event) a.active_map in
    let bytes = add64 a.context.active_bytes (object_size_bytes event) in
    (
      record a {
        active_map = allocations;
        context = record (a.context) {
          active_allocations_count = length allocations;
          active_bytes = bytes;
          peak_bytes = max a.context.peak_bytes bytes;
        };
      },
      collect_allocation event c,
    )

-- A timestamp before the allocation's gives the lifetime 0.
abbrev pub lifetime_of : Event → ActiveAllocation → ℕ
lifetime_of event alloc = deduct event.header.timestamp alloc.allocated_timestamp

abbrev pub collect_free :
    Event → ActiveAllocation → Option StatisticsCollector → Option StatisticsCollector
collect_free event alloc none = none
collect_free event alloc (some c) =
    some (record_free alloc.tier alloc.size_bytes (lifetime_of event alloc) alloc.process_id c)

-- What `handle_object_destroyed` does with the entry that it finds.
unfoldable pub destroy :
    Event
    → EventAnalyzer
    → Option StatisticsCollector
    → Option ActiveAllocation
    → EventAnalyzer × Option StatisticsCollector
destroy event a c none = (
  record a {
    context = record (a.context) { out_of_order_events = add64 a.context.out_of_order_events 1 };
  },
  c,
)
destroy event a c (some alloc) =
    let allocations = erase event.header.object_id a.active_map in
    (
      record a {
        active_map = allocations;
        context = record (a.context) {
          active_allocations_count = length allocations;
          active_bytes = deduct a.context.active_bytes alloc.size_bytes;
        };
      },
      collect_free event alloc c,
    )

unfoldable pub handle_object_destroyed :
    Event → EventAnalyzer → Option StatisticsCollector → EventAnalyzer × Option StatisticsCollector
handle_object_destroyed event a c = destroy event a c (lookup event.header.object_id a.active_map)

-- The tier becomes RAM, whatever the migration's target.
unfoldable pub migrate :
    ℕ → List (ℕ × ActiveAllocation) → Option ActiveAllocation → List (ℕ × ActiveAllocation)
migrate object_id allocations none = allocations
migrate object_id allocations (some alloc) =
    insert object_id (record alloc { tier = Tier.ram }) allocations

unfoldable pub handle_migration_completed :
    Event → EventAnalyzer → Option StatisticsCollector → EventAnalyzer × Option StatisticsCollector
handle_migration_completed event a c = (
  record a {
    active_map =
        migrate event.header.object_id a.active_map (lookup event.header.object_id a.active_map);
  },
  c,
)

-- The counters that every event moves.
unfoldable pub count_event : Event → EventAnalyzer → EventAnalyzer
count_event event a =
    if ltb event.header.timestamp a.last_timestamp
    then record a {
      context = record (a.context) {
        total_events_processed = add64 a.context.total_events_processed 1;
        out_of_order_events = add64 a.context.out_of_order_events 1;
      };
    }
    else record a {
      context = record (a.context) {
        total_events_processed = add64 a.context.total_events_processed 1;
      };
      last_timestamp = event.header.timestamp;
    }

unfoldable pub handle_event :
    Event → EventAnalyzer → Option StatisticsCollector → EventAnalyzer × Option StatisticsCollector
handle_event event a c =
    if event.header.type == EventType.object_created
    then handle_object_created event a c
    else if event.header.type == EventType.object_destroyed
    then handle_object_destroyed event a c
    else if event.header.type == EventType.migration_completed
    then handle_migration_completed event a c
    else (a, c)

unfoldable pub process_event :
    Event → EventAnalyzer → Option StatisticsCollector → EventAnalyzer × Option StatisticsCollector
process_event event a c = handle_event event (count_event event a) c

unfoldable pub process_all :
    List Event
    → EventAnalyzer
    → Option StatisticsCollector
    → EventAnalyzer × Option StatisticsCollector
process_all [] a c = (a, c)
process_all (e ∷ es) a c = let (a', c') = process_event e a c in process_all es a' c'

unfoldable pub context : EventAnalyzer → AnalysisContext
context a = record (a.context) { total_leaks_detected = length a.active_map }

abbrev pub is_some : Option ActiveAllocation → Bool
is_some none = false
is_some (some alloc) = true

unfoldable pub is_allocated : ℕ → EventAnalyzer → Bool
is_allocated object_id a = is_some (lookup object_id a.active_map)

unfoldable pub get_allocation : ℕ → EventAnalyzer → Result ActiveAllocation
get_allocation object_id a = elim (lookup object_id a.active_map) [
  | none ↦ err not_found
  | some alloc ↦ ok alloc
]

unfoldable pub active_allocations : EventAnalyzer → List ActiveAllocation
active_allocations a = map (λ entry. entry.1) a.active_map

unfoldable pub reset : EventAnalyzer → EventAnalyzer
reset a = new_analyzer
