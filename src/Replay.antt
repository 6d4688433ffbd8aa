-- ===== src/Replay.antt =====
-- `ReplayEngine` of core/src/event/replay_engine.cpp. The loop that reads and dispatches takes
-- fuel: `n` for its rounds, `fuel` for each `read_next`; `none` means that one of them ran out.
pub mod Loop
pub mod Damage
pub mod RoundTrip
pub mod Recovery
mod Tests
use ume.Prelude.{ℕ, zero, suc, ◌+◌, List, [], ◌++◌, Option, none, some, add64}
use ume.Status.{Result, ok, err}
use ume.Event.{Event}
use ume.Types.Flags
use ume.Types.Flags.{or_flags}
use ume.Dispatcher.{Dispatcher, Call, dispatch}
use ume.Journal.Disk.{Os, Disk}
use ume.Journal.Reader.{Reader, closed_reader, open_segment, open_directory, read_next}

pub record ReplayStats : Type 0 where
  pub segments_replayed : ℕ
  pub events_replayed : ℕ
  pub corrupted_records_skipped : ℕ
  pub bytes_read : ℕ

-- The event is marked as replayed.
abbrev pub mark_replayed : Event → Event
mark_replayed e = record e {
  header = record (e.header) { flags = or_flags e.header.flags Flags.replayed };
}

abbrev pub add_calls : List Call → Option (ℕ × List Call × Reader) → Option (ℕ × List Call × Reader)
add_calls calls none = none
add_calls calls (some (total, later, r)) = some (total, calls ++ later, r)

-- A failed `read_next` ends the loop; an event is marked, dispatched and counted.
abbrev pub replay_after :
    (Reader → ℕ → Option (ℕ × List Call × Reader))
    → Dispatcher
    → ℕ
    → Option (Result Event × Reader)
    → Option (ℕ × List Call × Reader)
replay_after go_on d count none = none
replay_after go_on d count (some (err s, r)) = some (count, [], r)
replay_after go_on d count (some (ok e, r)) =
    add_calls (dispatch (mark_replayed e) d) (go_on r (add64 count 1))

-- The loop: the events that were replayed, the calls that were made, and the reader.
unfoldable pub replay_loop :
    ℕ → ℕ → Os → Disk → Dispatcher → Reader → ℕ → Option (ℕ × List Call × Reader)
replay_loop zero fuel os disk d r count = none
replay_loop (suc n) fuel os disk d r count =
    replay_after (replay_loop n fuel os disk d) d count (read_next fuel os disk r)

abbrev pub stats_of : ℕ → Reader → ReplayStats
stats_of count r = record {
  segments_replayed = r.stats.segments_read;
  events_replayed = count;
  corrupted_records_skipped = r.stats.corrupted_records_skipped;
  bytes_read = r.stats.bytes_read;
}

abbrev pub report : Option (ℕ × List Call × Reader) → Option (Result ReplayStats × List Call)
report none = none
report (some (count, calls, r)) = some (ok (stats_of count r), calls)

-- A reader that did not open ends the replay.
abbrev pub replay_opened :
    ℕ
    → ℕ
    → Os
    → Disk
    → Dispatcher
    → Result (Unit {0}) × Reader
    → Option (Result ReplayStats × List Call)
replay_opened n fuel os disk d (err s, r) = some (err s, [])
replay_opened n fuel os disk d (ok _, r) = report (replay_loop n fuel os disk d r 0)

unfoldable pub replay_segment :
    ℕ → ℕ → Os → Disk → Dispatcher → ℕ → Option (Result ReplayStats × List Call)
replay_segment n fuel os disk d path =
    replay_opened n fuel os disk d (open_segment os disk path closed_reader)

unfoldable pub replay_directory :
    ℕ → ℕ → Os → Disk → Dispatcher → Option (List ℕ) → Option (Result ReplayStats × List Call)
replay_directory n fuel os disk d entries =
    replay_opened n fuel os disk d (open_directory os disk entries closed_reader)
