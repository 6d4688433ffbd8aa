-- ===== src/Replay/Damage.antt =====
-- A replay (core/src/event/replay_engine.cpp) of a directory where records may be damaged.
mod Tests
use ume.Prelude.{
  ℕ, zero, suc, ◌+◌, ◌^◌, ◌≤◌, ◌<◌, ◌≡◌, ◌≢◌, refl, sym, ap, ◌∙◌, subst, Option, none, some, true,
  List, [], ◌∷◌, length, lookup, arith,
}
use ume.Status.{Result, ok}
use ume.Event.{Event}
use ume.Dispatcher.{Dispatcher, Call}
use ume.Journal.File.{File}
use ume.Journal.Disk.{Os, Disk, all_succeed}
use ume.Journal.Writer.{Writer, closed_writer, open_writer, append_all, min_segment_size}
use ume.Journal.Reader.{
  Reader, closed_reader, open_directory, load_current_segment, check_segment, close,
}
use ume.Journal.Append.{
  Contents, entries, Logs, no_contents, opened_writer, opened_disk, open_writer-opens, opened-Logs,
}
use ume.Journal.Paths.{sort_paths}
use ume.Journal.Drain.{
  Slot, Follows, Found, Stream, left, kept, rejected, given, lost, intact, given-intact,
  lost-intact, given-le, lost-le, kept-le, rejected-le, load_next, Drains, drain-Drains, entered,
  load_sound,
}
use ume.Journal.Directory.{
  appended, HaveWidths, HoldsEvents, Recorded, append_all-Recorded, segments_from, slots, events,
  found-segments_from, Follows-segments_from,
}
use ume.Journal.Paths.Order.{paths_from}
use ume.Replay.Loop.{dispatch_all, count_events, totals, replay_loop-drain, count_events-length}
use ume.Replay.{ReplayStats, stats_of, report, replay_opened, replay_directory}

-- A replay that reports `count` events and `skipped` damaged ones, and has made these calls.
pub record Replays (outcome : Option (Result ReplayStats × List Call)) (count skipped : ℕ)
    (calls : List Call) : Type 0 where
  pub stats : ReplayStats
  pub reports : outcome ≡ some (ok stats, calls)
  pub counted : stats.events_replayed ≡ count
  pub skips : stats.corrupted_records_skipped ≡ skipped

open_directory-sorted :
    (os : Os) (disk : Disk) (entries : List ℕ) (path : ℕ) (paths : List ℕ)
    → sort_paths entries ≡ path ∷ paths
    → open_directory os disk (some entries) closed_reader
      ≡ load_current_segment os disk (record closed_reader { segment_paths = path ∷ paths })
unfolding open_directory close sort_paths
open_directory-sorted os disk [] path paths h = absurd (ground arith)
open_directory-sorted os disk (k ∷ ks) path paths h =
    ap (λ ps. load_current_segment os disk (record closed_reader { segment_paths = ps })) h

-- Any directory of one segment or more, however it is listed, which can all be opened: in the order
-- of their sorted paths, each, of fewer than 2 ^ 63 bytes, has a sound header, records one after
-- the other, and then zeros. Behind its own header, each record holds the event, of the layout's
-- widths, for which the header was written, or other bytes, whose checksum differs. A replay of the
-- directory with enough fuel makes the calls of dispatching, in order and marked as replayed,
-- exactly the undamaged events that `validate` accepts, and counts each of them once, and each of
-- the other records as skipped; there are fewer than 2 ^ 64 records.
pub replay_directory-Damaged :
    (os : Os) (disk : Disk) (entries : List ℕ) (path : ℕ) (paths : List ℕ) (rs : List Slot)
    (segs : List (List Slot)) (d : Dispatcher) (n fuel : ℕ)
    → sort_paths entries ≡ path ∷ paths
    → Follows os disk (path ∷ paths) 0 (rs ∷ segs)
    → length (left rs segs) < 2 ^ 64
    → length (given (left rs segs)) < n
    → length segs + lost (left rs segs) < fuel
    → Replays
        (replay_directory n fuel os disk d (some entries))
        (length (given (left rs segs)))
        (lost (left rs segs))
        (dispatch_all (given (left rs segs)) d)
unfolding replay_directory
replay_directory-Damaged os disk entries path paths rs segs d n fuel sorted follows small rounds
      steps =
    let (id, loads, stream) =
      load_next os disk (record closed_reader { segment_paths = path ∷ paths }) rs segs follows in
    let r = entered id (record closed_reader { segment_paths = path ∷ paths }) in
    let xs = left rs segs in
    let drained =
      drain-Drains os disk n fuel r rs segs steps (omega (arith, lost-le xs)) rounds stream in
    record {
      stats = stats_of (count_events 0 (given xs)) drained.final;
      reports =
          ap (replay_opened n fuel os disk d)
            (open_directory-sorted os disk entries path paths sorted ∙ loads)
          ∙ ap report (replay_loop-drain n fuel os disk d r 0 ∙ ap (totals 0 d) drained.gives);
      counted = count_events-length 0 (given xs) (omega (arith, given-le xs)) ∙ omega arith;
      skips = drained.skipped ∙ omega arith;
    }
