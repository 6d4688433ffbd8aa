-- ===== src/Epoch/Tests.antt =====
-- The theorems at concrete runs.
use ume.Prelude.{ℕ, ◌≡◌, refl, true, some, List, [], ◌∷◌, arith, ◌==◌, if◌then◌else◌}
use ume.Epoch.{
  EpochRcu, DeferredDeletion, idle, ThreadEpochSlot, empty_slot, reclaim_step, enter_step, exit,
  register_thread, retire_load, retire_push,
}
use ume.Epoch.System.{
  Action, registers, reader_enters, reader_exits, calls_retire, retire_pushes, reclaimer_steps,
  new_system, act, act_all,
}
use ume.Epoch.Invariant.{AllItems, AllSections, Ended}
use ume.Epoch.Safety.{delete_waits_for_readers}
use ume.Epoch.Progress.{run_reclaim, reclaim_without_readers}
use ume.Epoch.Outcome.{Reclaims, run_reclaim-Reclaims}

-- A reader enters, an item is retired, the reader leaves, and the reclaimer comes to its sweep.
abbrev reader_and_reclaimer : List Action
reader_and_reclaimer =
    registers
    ∷ reader_enters 0 10
    ∷ reader_enters 0 10
    ∷ reader_enters 0 10
    ∷ reader_enters 0 10
    ∷ calls_retire
    ∷ retire_pushes 0
    ∷ reader_exits 0
    ∷ reclaimer_steps 20
    ∷ reclaimer_steps 20
    ∷ reclaimer_steps 20
    ∷ reclaimer_steps 20
    ∷ reclaimer_steps 20
    ∷ reclaimer_steps 20
    ∷ reclaimer_steps 20
    ∷ reclaimer_steps 20
    ∷ []

delete_waits_for_readers_example :
    AllItems
      (λ d. AllSections (Ended (act_all reader_and_reclaimer (new_system 5))) d.deleter)
      (act (reclaimer_steps 20) (act_all reader_and_reclaimer (new_system 5))).0
delete_waits_for_readers_example =
    delete_waits_for_readers 5 reader_and_reclaimer (reclaimer_steps 20) (omega arith)

-- The run does delete the item, with the section that was open.
deletes :
    (act (reclaimer_steps 20) (act_all reader_and_reclaimer (new_system 5))).0
    ≡ record { epoch = 1; deleter = (0, 0) ∷ [] } ∷ []
unfolding act act_all reclaim_step enter_step exit register_thread retire_load retire_push
deletes = refl

abbrev stalled_slot : ThreadEpochSlot
stalled_slot = record { epoch = 2; active = true; entry_time_ns = 0; thread_id = 0 }

-- A manager of two slots, with a reader of an older epoch in the second.
abbrev with_reader : EpochRcu ℕ
with_reader = record {
  global_epoch = 3;
  slots = λ i. if i == 1 then stalled_slot else empty_slot;
  allocated_slots = 2;
  retired_list = record { epoch = 1; deleter = 7 } ∷ record { epoch = 2; deleter = 8 } ∷ [];
  timeout_ms = 100;
}

run_reclaim-Reclaims_example :
    (deleted : List (DeferredDeletion ℕ)) × (r' : EpochRcu ℕ) × (run_reclaim 11 5 idle with_reader
      ≡ some (deleted, r'))
    × Reclaims 5 with_reader deleted r'
run_reclaim-Reclaims_example = run_reclaim-Reclaims 11 5 with_reader (omega arith)

abbrev without_reader : EpochRcu ℕ
without_reader = record with_reader { slots = λ i. empty_slot }

reclaim_without_readers_example :
    run_reclaim 11 5 idle without_reader
    ≡ some
        (without_reader.retired_list, record without_reader { global_epoch = 4; retired_list = [] })
reclaim_without_readers_example =
    reclaim_without_readers 11 5 without_reader (omega arith) (omega arith) (refl, (refl, tt))
      (omega arith, (omega arith, tt))
