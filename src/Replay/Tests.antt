-- ===== src/Replay/Tests.antt =====
-- A replay of three sample events, one of which `validate` rejects, to a listener of migrations.
use mathlib.Core.List.{Permᴰ}
use ume.Prelude.{subst, sym, ◌≡◌, ◌<◌, ℕ, suc, ◌^◌, refl, none, some, List, [], ◌∷◌, arith}
use ume.Event.{Event, create_object_event, create_migration_event}
use ume.Serializer.{validate_header}
use ume.Event.Samples.{
  created, created-valid, oversized, oversized-IsEvent, migrated, migrated-valid,
}
use ume.Dispatcher.{Dispatcher, subscribe_listener}
use ume.Types.Category
use ume.Replay.Recovery.{all_events, Recovers, replay_directory-Recovers}
use ume.Journal.Disk.{Os, all_succeed, open_read_write}
use ume.Journal.Writer.{
  append_all, open_writer, roll_segment_locked, start_segment, append, append_open,
  reserve_and_write, write_record,
}
use ume.Journal.Directory.{}
use ume.Journal.Paths.Order.{paths_from}
use ume.Replay.{replay_directory}
use ume.Replay.Loop.{dispatch_all}
use ume.Replay.Damage.{Replays}
use ume.Replay.RoundTrip.{written, replay_directory-append_all}

abbrev os : Os
os i = all_succeed

abbrev one_listener : Dispatcher
one_listener = record {
  subscribers =
      record {
        token = 1;
        listener = some 10;
        callback = none;
        filter = record { category = Category.tier_migration; type = 0; min_priority = 0 };
      }
      ∷ [];
  token_counter = 1;
}

abbrev events : List (ℕ × Event)
events = (6, created) ∷ (7, oversized) ∷ (8, migrated) ∷ []

-- The three events fit into the first segment.
first_segment_only : (written os 5 (2 ^ 20) [] events).0.current_segment_id ≡ 0
unfolding append_all open_writer roll_segment_locked start_segment open_read_write append
    append_open reserve_and_write write_record
first_segment_only = refl

few_segments : (written os 5 (2 ^ 20) [] events).0.current_segment_id < 10 ^ 6
few_segments = omega (arith, first_segment_only)

one_segment :
    Permᴰ (0 ∷ []) (paths_from 0 (suc (written os 5 (2 ^ 20) [] events).0.current_segment_id))
one_segment =
    subst (λ id. Permᴰ (0 ∷ []) (paths_from 0 (suc id))) (sym first_segment_only)
      (Permᴰ.cons refl Permᴰ.nil)

replay_directory-append_all_example :
    Replays
      (replay_directory 4 5 os (written os 5 (2 ^ 20) [] events).1 one_listener (some (0 ∷ [])))
      2
      1
      (dispatch_all (created ∷ migrated ∷ []) one_listener)
unfolding validate_header create_object_event create_migration_event
replay_directory-append_all_example =
    replay_directory-append_all os 5 (2 ^ 20) [] events one_listener 4 5 (0 ∷ []) (λ i. refl)
      (omega arith) (omega arith) (λ i. refl)
      (created-valid.0, (oversized-IsEvent, (migrated-valid.0, tt))) (omega arith) (omega arith)
      (omega arith) few_segments one_segment

replay_directory-Recovers_example :
    let (token, d) = subscribe_listener (some 20) all_events one_listener in
    Recovers 20 none
      (created ∷ migrated ∷ [])
      (replay_directory 4 5 os (written os 5 (2 ^ 20) [] events).1 d (some (0 ∷ [])))
unfolding validate_header create_object_event create_migration_event
replay_directory-Recovers_example =
    replay_directory-Recovers os 5 (2 ^ 20) [] events one_listener 4 5 20 none (0 ∷ []) (λ i. refl)
      (omega arith) (omega arith) (λ i. refl)
      (created-valid.0, (oversized-IsEvent, (migrated-valid.0, tt))) (omega arith) (omega arith)
      (omega arith) few_segments one_segment ((λ h. ground arith), tt)
