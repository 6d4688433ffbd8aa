-- ===== src/Replay/RoundTrip.antt =====
-- The journal from end to end: what is appended is what a replay dispatches.
use mathlib.Core.List.{Permᴰ}
use ume.Prelude.{
  ℕ, zero, suc, ◌+◌, ◌^◌, ◌≤◌, ◌<◌, ◌≡◌, refl, sym, ap, ◌∙◌, subst, none, some, List, [], ◌∷◌,
  length, lookup, arith,
}
use ume.Event.{Event}
use ume.Dispatcher.{Dispatcher}
use ume.Journal.Disk.{Os, Disk, all_succeed}
use ume.Journal.Writer.{Writer, closed_writer, open_writer, append_all, min_segment_size}
use ume.Journal.Append.{
  Contents, entries, no_contents, opened_writer, opened_disk, open_writer-opens, opened-Logs,
}
use ume.Journal.Drain.{
  left, kept, rejected, given, lost, intact, given-intact, length-intact, lost-intact, kept-le,
}
use ume.Journal.Directory.{
  appended, HaveWidths, Recorded, append_all-Recorded, segments_from, slots, events,
  found-segments_from, Follows-segments_from,
}
use ume.Journal.Paths.Order.{paths_from, sort_paths-perm}
use ume.Replay.Damage.{Replays, replay_directory-Damaged}
use ume.Replay.Loop.{dispatch_all}
use ume.Replay.{replay_directory}

length-appended : (es : List (ℕ × Event)) → length (appended es) ≡ length es
length-appended [] = refl
length-appended ((now, e) ∷ es) = ap suc (length-appended es)

length-segments_from : (c : Contents) (i n : ℕ) → length (segments_from c i n) ≡ n
length-segments_from c i zero = refl
length-segments_from c i (suc n) = ap suc (length-segments_from c (i + 1) n)

-- What replaying a writer's segments does.
replay-Recorded :
    (os : Os) (w : Writer) (disk : Disk) (es : List Event) (d : Dispatcher) (n fuel : ℕ)
    (listed : List ℕ)
    → ((i : ℕ) → os i ≡ all_succeed)
    → w.current_segment_id < 10 ^ 6
    → Permᴰ listed (paths_from 0 (suc w.current_segment_id))
    → Recorded w disk [] es
    → length es < 2 ^ 64
    → length es < n
    → w.current_segment_id + rejected es < fuel
    → Replays
        (replay_directory n fuel os disk d (some listed))
        (length (kept es))
        (rejected es)
        (dispatch_all (kept es) d)
unfolding entries
replay-Recorded os w disk es d n fuel listed good few order rec small rounds steps =
    let c = rec.contents in
    let id = w.current_segment_id in
    let segs = segments_from c 1 id in
    let plain : 0 + suc id ≡ suc id = omega arith in
    let all : left (slots (c 0)) segs ≡ intact es =
      found-segments_from c 0 (suc id)
      ∙ ap (λ k. intact (events (entries c k))) plain
      ∙ ap intact rec.all_events in
    let gives : given (left (slots (c 0)) segs) ≡ kept es = ap given all ∙ given-intact es in
    let loses : lost (left (slots (c 0)) segs) ≡ rejected es = ap lost all ∙ lost-intact es in
    let out = replay_directory n fuel os disk d (some listed) in
    subst (λ xs. Replays out (length xs) (rejected es) (dispatch_all xs d)) gives
      (subst
        (λ k.
          Replays out (length (given (left (slots (c 0)) segs))) k
            (dispatch_all (given (left (slots (c 0)) segs)) d))
        loses
        (replay_directory-Damaged os disk listed 0 (paths_from 1 id) (slots (c 0)) segs d n fuel
          (sort_paths-perm listed (suc id) (omega arith) order)
          (Follows-segments_from os w disk c (suc id) 0 (suc id) good rec.logs rec.widths refl
            plain)
          (omega (arith, ap length all, length-intact es))
          (omega (arith, ap length gives, kept-le es))
          (omega (arith, loses, length-segments_from c 1 id))))

-- A writer is opened, and the events are appended.
abbrev pub written : Os → ℕ → ℕ → Disk → List (ℕ × Event) → Writer × Disk
written os now size disk es =
    let (result, w, opened) = open_writer os now size closed_writer disk in
    append_all os es w opened

-- A writer opened on a fresh directory, with a legal segment size below 2 ^ 63, takes any sequence
-- of events with the widths of the layout, fewer than 2 ^ 64, over as many segments as they fill,
-- up to a million, on a disk that does not fail. Then replaying the directory, in whatever order it
-- lists the segments, with enough fuel reads every event that `validate` accepts, skips each of the
-- others as damaged and nothing else, counts each once, and makes the calls of dispatching the
-- accepted events in the order in which they were appended, each marked as replayed.
pub replay_directory-append_all :
    (os : Os) (now size : ℕ) (disk : Disk) (es : List (ℕ × Event)) (d : Dispatcher) (n fuel : ℕ)
    (listed : List ℕ)
    → ((i : ℕ) → os i ≡ all_succeed)
    → min_segment_size ≤ size
    → size < 2 ^ 63
    → ((i : ℕ) → lookup i disk ≡ none)
    → HaveWidths es
    → length es < 2 ^ 64
    → length es < n
    → length es + rejected (appended es) < fuel
    → (written os now size disk es).0.current_segment_id < 10 ^ 6
    → Permᴰ listed (paths_from 0 (suc (written os now size disk es).0.current_segment_id))
    → Replays
        (replay_directory n fuel os (written os now size disk es).1 d (some listed))
        (length (kept (appended es)))
        (rejected (appended es))
        (dispatch_all (kept (appended es)) d)
replay_directory-append_all os now size disk es d n fuel listed good least most absent a small
      rounds steps few order =
    let w = opened_writer size in
    let opened = opened_disk now size disk in
    let (rec, same_size, segments) =
      append_all-Recorded os es w opened no_contents [] good a (omega arith)
        (opened-Logs now size disk least most absent) (λ i. tt) (unfold entries in refl) in
    subst Goal
      (sym (
        ap (λ t. append_all os es t.1 t.2)
          (open_writer-opens os now size disk (good 0) least (absent 0))))
      (λ few' order'.
        replay-Recorded os (append_all os es w opened).0 (append_all os es w opened).1 (appended es)
          d n fuel listed good few' order' rec (omega (arith, length-appended es))
          (omega (arith, length-appended es)) (omega (arith, segments)))
      few order
  where
    Goal : Writer × Disk → Type 0
    Goal (w', disk') =
        w'.current_segment_id < 10 ^ 6
        → Permᴰ listed (paths_from 0 (suc w'.current_segment_id))
        → Replays (replay_directory n fuel os disk' d (some listed)) (length (kept (appended es)))
            (rejected (appended es)) (dispatch_all (kept (appended es)) d)
