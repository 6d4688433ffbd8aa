-- ===== src/Analyzer/Tests.antt =====
-- An analyzer after the sample events.
use ume.Prelude.{◌+◌, ◌^◌, ◌<◌, ◌≡◌, refl, none, some, List, [], ◌∷◌, arith, lookup}
use ume.Event.{Event, create_object_event, object_size_bytes}
use ume.Event.Samples.{created, migrated, destroyed}
use ume.Statistics.{new_collector}
use ume.Analyzer.{
  EventAnalyzer, ActiveAllocation, allocation_of, new_analyzer, process_event, process_all,
  is_allocated,
}
use ume.Analyzer.Live.{IsTable, alive, process_all-alive}
use ume.Analyzer.Bytes.{IsAccount, AllRegular, process_all-IsAccount}

abbrev history : List Event
history = created ∷ migrated ∷ destroyed ∷ []

process_all-alive_example :
    (is_allocated 7 (process_all history new_analyzer (some new_collector)).0
      ≡ alive 7 history (is_allocated 7 new_analyzer))
    × IsTable (process_all history new_analyzer (some new_collector)).0
process_all-alive_example =
    process_all-alive history new_analyzer (some new_collector) 7
      (record { keys = tt; count = refl })

created-regular : AllRegular (created ∷ []) new_analyzer none
unfolding process_event create_object_event
created-regular = (record { fresh = λ p. refl; fits = λ p. omega arith }, tt)

process_all-IsAccount_example : IsAccount (process_all (created ∷ []) new_analyzer none).0
process_all-IsAccount_example =
    process_all-IsAccount (created ∷ []) new_analyzer none
      (record { bytes = refl; peak = omega arith }) created-regular

-- One object of 64 bytes is active.
abbrev one_object : EventAnalyzer
one_object = record new_analyzer {
  active_map = (7, record (allocation_of created) { size_bytes = 64 }) ∷ [];
  context = record (new_analyzer.context) {
    active_allocations_count = 1;
    active_bytes = 64;
    peak_bytes = 64;
  };
}

abbrev old : ActiveAllocation
old = record (allocation_of created) { size_bytes = 64 }

one_object-found : lookup created.header.object_id one_object.active_map ≡ some old
unfolding create_object_event
one_object-found = refl

one_object-room : one_object.context.active_bytes + object_size_bytes created < 2 ^ 64
unfolding create_object_event
one_object-room = omega arith
