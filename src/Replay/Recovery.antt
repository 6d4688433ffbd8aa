-- ===== src/Replay/Recovery.antt =====
-- Recovery after a crash: the journal is replayed to an `EventAnalyzer`
-- (core/src/event/event_analyzer.cpp) that has subscribed to every event.
use mathlib.Core.List.{Permᴰ}
use ume.Prelude.{
  ℕ, ◌+◌, suc, ◌^◌, ◌≤◌, ◌<◌, ◌≡◌, refl, ap, ◌∙◌, ◌≢◌, inl, inr, true, false, Option, none, some,
  List, [], ◌∷◌, ◌++◌, arith, ◌==◌, if◌then◌else◌, ==_refl, ne→==, Bool-cases, length, lookup,
}
use ume.Status.{Result, ok}
use ume.Event.{Event}
use ume.Statistics.{StatisticsCollector}
use ume.Dispatcher.{
  EventFilter, matches, Subscriber, Dispatcher, Call, on_event, call_back, subscribe_listener,
  invoke, notify, notify_all, dispatch,
}
use ume.Dispatcher.Laws.{dispatch-subscribe}
use ume.Analyzer.{
  EventAnalyzer, new_analyzer, process_event, process_all, handle_event, count_event,
  handle_object_created, handle_object_destroyed, handle_migration_completed, destroy, is_allocated,
}
use ume.Analyzer.Live.{alive, IsTable, process_all-alive}
use ume.Journal.Disk.{Os, Disk, all_succeed}
use ume.Journal.Writer.{min_segment_size}
use ume.Journal.Directory.{appended, HaveWidths}
use ume.Journal.Paths.Order.{paths_from}
use ume.Journal.Drain.{kept, rejected}
use ume.Replay.{ReplayStats, mark_replayed, replay_directory}
use ume.Replay.Loop.{dispatch_all}
use ume.Replay.RoundTrip.{written, replay_directory-append_all}

-- An analyzer with the collector that it drives.
abbrev pub Analysis : Type 0
Analysis = EventAnalyzer × Option StatisticsCollector

-- `EventAnalyzer::on_event`, where the analyzer is the listener `l`: it does nothing for the calls
-- to others.
abbrev pub hear : ℕ → Call → Analysis → Analysis
hear l (on_event k e) (a, c) = if k == l then process_event e a c else (a, c)
hear l (call_back k e) (a, c) = (a, c)

abbrev pub hear_all : ℕ → List Call → Analysis → Analysis
hear_all l [] s = s
hear_all l (call ∷ calls) s = hear_all l calls (hear l call s)

-- The default filter, which every event matches.
abbrev pub all_events : EventFilter
all_events = record { category = 0; type = 0; min_priority = 0 }

-- The analyzer is none of the subscribers.
abbrev pub Deaf : ℕ → List Subscriber → Type 0
Deaf l [] = Unit {0}
Deaf l (s ∷ ss) = (s.listener ≢ some l) × Deaf l ss

all_events-matches : (e : Event) → matches all_events e ≡ true
unfolding matches
all_events-matches e = ground arith

hear_all-append :
    (l : ℕ) (xs ys : List Call) (s : Analysis)
    → hear_all l (xs ++ ys) s ≡ hear_all l ys (hear_all l xs s)
hear_all-append l [] ys s = refl
hear_all-append l (x ∷ xs) ys s = hear_all-append l xs ys (hear l x s)

hear_all-invoke :
    (l : ℕ) (listener callback : Option ℕ) (e : Event) (s : Analysis)
    → listener ≢ some l
    → hear_all l (invoke listener callback e) s ≡ s
hear_all-invoke l (some k) callback e s h = rw (ne→== k l (λ same. h (ap some same))) refl
hear_all-invoke l none (some k) e s h = refl
hear_all-invoke l none none e s h = refl

hear_all-notify_all :
    (l : ℕ) (ss : List Subscriber) (e : Event) (s : Analysis)
    → Deaf l ss
    → hear_all l (notify_all ss e) s ≡ s
unfolding notify_all notify
hear_all-notify_all l [] e s h = refl
hear_all-notify_all l (u ∷ ss) e s (h, hs) =
    hear_all-append l (if matches u.filter e then invoke u.listener u.callback e else [])
      (notify_all ss e) s
    ∙ ap (hear_all l (notify_all ss e)) (elim (Bool-cases (matches u.filter e)) [
      | inl matched ↦ rw matched (hear_all-invoke l u.listener u.callback e s h)
      | inr other ↦ rw other refl
    ])
    ∙ hear_all-notify_all l ss e s hs

-- The flag of a replayed event changes nothing for the analyzer.
process_event-mark_replayed :
    (e : Event) (a : EventAnalyzer) (c : Option StatisticsCollector)
    → process_event (mark_replayed e) a c ≡ process_event e a c
unfolding process_event handle_event count_event handle_object_created handle_object_destroyed
    handle_migration_completed destroy
process_event-mark_replayed e a c = refl

-- One event: of all the calls that are made, the analyzer hears its own.
hear_all-dispatch :
    (l : ℕ) (d : Dispatcher) (e : Event) (a : EventAnalyzer) (c : Option StatisticsCollector)
    → Deaf l d.subscribers
    → hear_all l (dispatch e (subscribe_listener (some l) all_events d).1) (a, c)
      ≡ process_event e a c
unfolding dispatch
hear_all-dispatch l d e a c deaf =
    ap (λ calls. hear_all l calls (a, c)) (dispatch-subscribe l all_events d e)
    ∙ rw (all_events-matches e) (
        hear_all-append l (notify_all d.subscribers e) (on_event l e ∷ []) (a, c)
        ∙ ap (hear l (on_event l e)) (hear_all-notify_all l d.subscribers e (a, c) deaf)
        ∙ rw (==_refl l) refl)

-- A replay of events does to the analyzer what the events did.
hear_all-dispatch_all :
    (l : ℕ) (d : Dispatcher) (es : List Event) (a : EventAnalyzer) (c : Option StatisticsCollector)
    → Deaf l d.subscribers
    → hear_all l (dispatch_all es (subscribe_listener (some l) all_events d).1) (a, c)
      ≡ process_all es a c
unfolding process_all
hear_all-dispatch_all l d [] a c deaf = refl
hear_all-dispatch_all l d (e ∷ es) a c deaf =
    let d' = (subscribe_listener (some l) all_events d).1 in
    let (a', c') = process_event e a c in
    hear_all-append l (dispatch (mark_replayed e) d') (dispatch_all es d') (a, c)
    ∙ ap (hear_all l (dispatch_all es d'))
        (hear_all-dispatch l d (mark_replayed e) a c deaf ∙ process_event-mark_replayed e a c)
    ∙ hear_all-dispatch_all l d es a' c' deaf

new-IsTable : IsTable new_analyzer
new-IsTable = record { keys = tt; count = refl }

-- What a replay leaves an analyzer with that was new before it.
pub record Recovers (l : ℕ) (c : Option StatisticsCollector) (es : List Event)
    (outcome : Option (Result ReplayStats × List Call)) : Type 0 where
  pub stats : ReplayStats
  pub calls : List Call
  pub reports : outcome ≡ some (ok stats, calls)
  pub recovered : hear_all l calls (new_analyzer, c) ≡ process_all es new_analyzer c
  pub allocated : (k : ℕ) → is_allocated k (hear_all l calls (new_analyzer, c)).0 ≡ alive k es false

-- A writer opened on a fresh directory, with a legal segment size below 2 ^ 63, takes any sequence
-- of events with the widths of the layout, fewer than 2 ^ 64, over as many segments as they fill,
-- up to a million, on a disk that does not fail. After a crash a new analyzer, which is none of the
-- subscribers yet, subscribes to every event, and the directory, in whatever order it lists the
-- segments, is replayed with enough fuel. Then the analyzer and the collector that it drives are
-- just as if the analyzer had processed those of the events that `validate` accepts, in order,
-- whoever else listens; and an object is allocated exactly if the last creation or destruction of
-- it among them is a creation.
pub replay_directory-Recovers :
    (os : Os) (now size : ℕ) (disk : Disk) (es : List (ℕ × Event)) (d : Dispatcher) (n fuel l : ℕ)
    (c : Option StatisticsCollector) (listed : List ℕ)
    → ((i : ℕ) → os i ≡ all_succeed)
    → min_segment_size ≤ size
    → size < 2 ^ 63
    → ((i : ℕ) → lookup i disk ≡ none)
    → HaveWidths es
    → length es < 2 ^ 64
    → length es < n
    → length es + rejected (appended es) < fuel
    → (written os now size disk es).0.current_segment_id < 10 ^ 6
    → Permᴰ listed (paths_from 0 (suc (written os now size disk es).0.current_segment_id))
    → Deaf l d.subscribers
    → let (token, d') = subscribe_listener (some l) all_events d in
      Recovers l c
        (kept (appended es))
        (replay_directory n fuel os (written os now size disk es).1 d' (some listed))
unfolding is_allocated
replay_directory-Recovers os now size disk es d n fuel l c listed good least most absent a small
      rounds steps few order deaf =
    let d' = (subscribe_listener (some l) all_events d).1 in
    let r =
      replay_directory-append_all os now size disk es d' n fuel listed good least most absent a
        small rounds steps few order in
    let same = hear_all-dispatch_all l d (kept (appended es)) new_analyzer c deaf in
    record {
      stats = r.stats;
      calls = dispatch_all (kept (appended es)) d';
      reports = r.reports;
      recovered = same;
      allocated = λ k.
          ap (λ s. is_allocated k s.0) same
          ∙ (process_all-alive (kept (appended es)) new_analyzer c k new-IsTable).0;
    }
