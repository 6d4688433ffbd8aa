-- ===== src/Epoch/Safety.antt =====
-- Nothing is deleted under a reader, however the threads interleave.
use ume.Prelude.{
  ℕ, ◌+◌, ◌^◌, ◌≤◌, ◌<◌, ◌≡◌, refl, inl, inr, List, [], ◌∷◌, arith, ltb, Bool-cases, length,
}
use ume.Epoch.{
  EpochRcu, DeferredDeletion, Reader, outside, loaded, timed, stored, inside, Reclaimer, idle,
  advancing, checking, advanced, counting, scanning, sweeping, num_slots, register_thread, blocks,
  enter_step, exit, retire_push, reclaim_step,
}
use ume.Epoch.System.{
  System, Sections, is_inside, pick, push_all, Action, registers, reader_enters, reader_exits,
  calls_retire, retire_pushes, reclaimer_steps, new_system, act, act_all,
}
use ume.Epoch.Invariant.{AllSections, AllItems, IsSystem, Ended}
use ume.Epoch.Readers.{registers-IsSystem, reader_enters-IsSystem, reader_exits-IsSystem}
use ume.Epoch.Reclaims.{
  calls_retire-IsSystem, retire_pushes-IsSystem, reclaim_step-IsSystem, split_retired-Ended,
}

abbrev Fits : ℕ → System → Type 0
Fits steps s = (s.rcu.global_epoch + steps < 2 ^ 64) × (s.rcu.allocated_slots + steps < 2 ^ 64)

-- Every step keeps the invariant while the counters do not wrap around.
act-IsSystem : (a : Action) (s : System) → Fits 1 s → IsSystem s → IsSystem (act a s).1
unfolding act
act-IsSystem registers s (f, g) h = registers-IsSystem s g h
act-IsSystem (reader_enters slot now) s f h = reader_enters-IsSystem now slot s h
act-IsSystem (reader_exits slot) s f h = reader_exits-IsSystem slot s h
act-IsSystem calls_retire s f h = calls_retire-IsSystem s h
act-IsSystem (retire_pushes call) s f h = retire_pushes-IsSystem call s h
act-IsSystem (reclaimer_steps now) s (f, g) h = reclaim_step-IsSystem now s s.reclaimer f h

-- A step of the reclaimer that deletes is a sweep.
reclaim_step-Ended :
    (now : ℕ) (s : System) (r : Reclaimer)
    → s.reclaimer ≡ r
    → IsSystem s
    → AllItems (λ d. AllSections (Ended s) d.deleter) (reclaim_step now r s.rcu).0
unfolding reclaim_step
reclaim_step-Ended now s idle e h = tt
reclaim_step-Ended now s (advancing epoch) e h = tt
reclaim_step-Ended now s (checking epoch num k) e h = elim (Bool-cases (ltb k num)) [
  | inl more ↦ elim (Bool-cases (blocks now s.rcu.timeout_ms epoch (s.rcu.slots k))) [
    | inl stop ↦ simp (more, stop) tt
    | inr go ↦ simp (more, go) tt
  ]
  | inr done ↦ simp done tt
]
reclaim_step-Ended now s advanced e h = tt
reclaim_step-Ended now s (counting m) e h = tt
reclaim_step-Ended now s (scanning m num k) e h = elim (Bool-cases (ltb k num)) [
  | inl more ↦ simp more tt
  | inr done ↦ simp done tt
]
reclaim_step-Ended now s (sweeping m) e h =
    (split_retired-Ended s m e s.rcu.retired_list h.retired).0

act-Ended :
    (a : Action) (s : System)
    → IsSystem s
    → AllItems (λ d. AllSections (Ended s) d.deleter) (act a s).0
unfolding act
act-Ended registers s h = tt
act-Ended (reader_enters slot now) s h = elim (Bool-cases (ltb slot (num_slots s.rcu))) [
  | inl low ↦ simp low tt
  | inr high ↦ simp high tt
]
act-Ended (reader_exits slot) s h = elim (Bool-cases (is_inside (s.readers slot))) [
  | inl here ↦ simp here tt
  | inr gone ↦ simp gone tt
]
act-Ended calls_retire s h = tt
act-Ended (retire_pushes call) s h = tt
act-Ended (reclaimer_steps now) s h = reclaim_step-Ended now s s.reclaimer refl h

-- The two counters of a manager, against those of another.
abbrev Counters : EpochRcu Sections → EpochRcu Sections → Type 0
Counters r r' =
    (r'.global_epoch ≤ r.global_epoch + 1) × (r'.allocated_slots ≤ r.allocated_slots + 1)

enter_step-Counters :
    (now slot : ℕ) (reader : Reader) (r : EpochRcu Sections)
    → Counters r (enter_step now slot reader r).1
unfolding enter_step
enter_step-Counters now slot outside r = ground arith
enter_step-Counters now slot (loaded epoch) r = (omega arith, omega arith)
enter_step-Counters now slot (timed epoch) r = (omega arith, omega arith)
enter_step-Counters now slot stored r = (omega arith, omega arith)
enter_step-Counters now slot inside r = (omega arith, omega arith)

push_all-Counters :
    (ds : List (DeferredDeletion Sections)) (r : EpochRcu Sections) → Counters r (push_all ds r)
unfolding retire_push
push_all-Counters [] r = (omega arith, omega arith)
push_all-Counters (d ∷ ds) r = push_all-Counters ds (retire_push d r)

reclaim_step-Counters :
    (now : ℕ) (p : Reclaimer) (r : EpochRcu Sections) → Counters r (reclaim_step now p r).2
unfolding reclaim_step
reclaim_step-Counters now idle r = (omega arith, omega arith)
reclaim_step-Counters now (advancing epoch) r = (omega arith, omega arith)
reclaim_step-Counters now (checking epoch num k) r = ground arith
reclaim_step-Counters now advanced r = (omega arith, omega arith)
reclaim_step-Counters now (counting m) r = (omega arith, omega arith)
reclaim_step-Counters now (scanning m num k) r = ground arith
reclaim_step-Counters now (sweeping m) r = (omega arith, omega arith)

act-Counters : (a : Action) (s : System) → Counters s.rcu (act a s).1.rcu
unfolding act register_thread exit
act-Counters registers s = (omega arith, omega arith)
act-Counters (reader_enters slot now) s = elim (Bool-cases (ltb slot (num_slots s.rcu))) [
  | inl low ↦ simp low (enter_step-Counters now slot (s.readers slot) s.rcu)
  | inr high ↦ simp high (omega arith, omega arith)
]
act-Counters (reader_exits slot) s = ground arith
act-Counters calls_retire s = (omega arith, omega arith)
act-Counters (retire_pushes call) s = push_all-Counters (pick call s.retiring).0 s.rcu
act-Counters (reclaimer_steps now) s = reclaim_step-Counters now s.reclaimer s.rcu

act_all-IsSystem :
    (rest : List Action) (s : System)
    → Fits (length rest) s
    → IsSystem s
    → IsSystem (act_all rest s)
unfolding act_all
act_all-IsSystem [] s f h = h
act_all-IsSystem (a ∷ rest) s (f, g) h =
    let (x, y) = act-Counters a s in
    act_all-IsSystem rest (act a s).1 (omega arith, omega arith)
      (act-IsSystem a s (omega arith, omega arith) h)

new_system-IsSystem : (timeout_ms : ℕ) → IsSystem (new_system timeout_ms)
new_system-IsSystem timeout_ms = record {
  reading = λ i. tt;
  minimum = tt;
  retired = tt;
  retiring = tt;
}

-- Readers, threads that retire and a thread that reclaims interleave in any way, the threads
-- registered, in fewer steps than the counters' range. Whatever the next step deletes, every
-- critical section that was open when `retire` was called for it has been left.
pub delete_waits_for_readers :
    (timeout_ms : ℕ) (done : List Action) (a : Action)
    → length done + 1 < 2 ^ 64
    → AllItems
        (λ d. AllSections (Ended (act_all done (new_system timeout_ms))) d.deleter)
        (act a (act_all done (new_system timeout_ms))).0
delete_waits_for_readers timeout_ms done a few = act-Ended a _ (
    act_all-IsSystem done (new_system timeout_ms) (omega arith, omega arith)
      (new_system-IsSystem timeout_ms))
