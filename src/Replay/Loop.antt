-- ===== src/Replay/Loop.antt =====
-- The loop of core/src/event/replay_engine.cpp against what `read_next` returns.
use ume.Prelude.{
  ℕ, zero, suc, ◌+◌, ◌^◌, ◌<◌, ◌≡◌, refl, ap, ◌∙◌, Option, none, some, List, [], ◌∷◌, ◌++◌, length,
  add64, arith,
}
use ume.Status.{Result, ok, err}
use ume.Event.{Event}
use ume.Dispatcher.{Dispatcher, Call, dispatch}
use ume.Journal.Disk.{Os, Disk}
use ume.Journal.Reader.{Reader, read_next, drain, drain_after, add_event}
use ume.Replay.{mark_replayed, replay_loop, add_calls, replay_after}

-- The calls for a sequence of events, each marked as replayed.
abbrev pub dispatch_all : List Event → Dispatcher → List Call
dispatch_all [] d = []
dispatch_all (e ∷ es) d = dispatch (mark_replayed e) d ++ dispatch_all es d

-- Adding one for each event, as the counter of the replay does.
abbrev pub count_events : ℕ → List Event → ℕ
count_events count [] = count
count_events count (e ∷ es) = count_events (add64 count 1) es

-- The outcome of a replay that counts on from `count`, from the events that a reader gives.
abbrev pub totals : ℕ → Dispatcher → Option (List Event × Reader) → Option (ℕ × List Call × Reader)
totals count d none = none
totals count d (some (es, r)) = some (count_events count es, dispatch_all es d, r)

totals-add_event :
    (d : Dispatcher) (count : ℕ) (e : Event) (rest : Option (List Event × Reader))
    → add_calls (dispatch (mark_replayed e) d) (totals (add64 count 1) d rest)
      ≡ totals count d (add_event e rest)
totals-add_event d count e none = refl
totals-add_event d count e (some (es, r)) = refl

totals-drain_after :
    (d : Dispatcher) (go_on : Reader → Option (List Event × Reader))
    (go_on' : Reader → ℕ → Option (ℕ × List Call × Reader)) (count : ℕ)
    (out : Option (Result Event × Reader))
    → ((r : Reader) (count : ℕ) → go_on' r count ≡ totals count d (go_on r))
    → replay_after go_on' d count out ≡ totals count d (drain_after go_on out)
totals-drain_after d go_on go_on' count none h = refl
totals-drain_after d go_on go_on' count (some (err s, r)) h = refl
totals-drain_after d go_on go_on' count (some (ok e, r)) h =
    ap (add_calls (dispatch (mark_replayed e) d)) (h r (add64 count 1))
    ∙ totals-add_event d count e (go_on r)

-- On any disk, sound or damaged: the replay loop dispatches, in order and marked as replayed,
-- exactly the events that calling `read_next` until it fails returns, counts them, and leaves the
-- reader as those calls do; it runs out of fuel exactly where they do.
pub replay_loop-drain :
    (n fuel : ℕ) (os : Os) (disk : Disk) (d : Dispatcher) (r : Reader) (count : ℕ)
    → replay_loop n fuel os disk d r count ≡ totals count d (drain n fuel os disk r)
unfolding replay_loop drain
replay_loop-drain zero fuel os disk d r count = refl
replay_loop-drain (suc n) fuel os disk d r count =
    totals-drain_after d (drain n fuel os disk) (replay_loop n fuel os disk d) count
      (read_next fuel os disk r) (replay_loop-drain n fuel os disk d)

pub count_events-length :
    (count : ℕ) (es : List Event)
    → count + length es < 2 ^ 64
    → count_events count es ≡ count + length es
count_events-length count [] h = omega arith
count_events-length count (e ∷ es) h =
    count_events-length (add64 count 1) es (omega arith) ∙ omega arith
