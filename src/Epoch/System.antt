-- ===== src/Epoch/System.antt =====
-- The manager with its threads: a reader for each slot, any number of threads that retire, and one
-- that reclaims. Readers count their critical sections; what is retired carries, in the place of
-- its deleter, the critical sections that were open when `retire` was called.
use ume.Prelude.{
  ℕ, zero, suc, ◌+◌, Bool, true, false, none, some, List, [], ◌∷◌, ◌++◌, ltb, if◌then◌else◌, put,
}
use ume.Epoch.{
  EpochRcu, DeferredDeletion, Reader, outside, loaded, timed, stored, inside, Reclaimer, idle,
  new_rcu, num_slots, register_thread, enter_step, exit, retire_load, retire_push, reclaim_step,
  max_rcu_threads,
}

-- Critical sections: the slot, and the number of the section.
abbrev pub Sections : Type 0
Sections = List (ℕ × ℕ)

pub record System : Type 0 where
  pub rcu : EpochRcu Sections
  pub readers : ℕ → Reader
  pub sections : ℕ → ℕ
  pub retiring : List (DeferredDeletion Sections)
  pub reclaimer : Reclaimer

abbrev pub is_inside : Reader → Bool
is_inside inside = true
is_inside outside = false
is_inside (loaded epoch) = false
is_inside (timed epoch) = false
is_inside stored = false

-- The critical sections that are open, in the first `n` slots.
abbrev pub open_sections : ℕ → (ℕ → Reader) → (ℕ → ℕ) → Sections
open_sections zero readers sections = []
open_sections (suc n) readers sections =
    let rest = open_sections n readers sections in
    if is_inside (readers n) then (n, sections n) ∷ rest else rest

-- The element at an index, as a list, and the list without it.
abbrev pub pick : {A : Type 0} → ℕ → List A → List A × List A
pick k [] = ([], [])
pick zero (x ∷ xs) = (x ∷ [], xs)
pick (suc k) (x ∷ xs) = let (picked, rest) = pick k xs in (picked, x ∷ rest)

abbrev pub push_all : List (DeferredDeletion Sections) → EpochRcu Sections → EpochRcu Sections
push_all [] r = r
push_all (d ∷ ds) r = push_all ds (retire_push d r)

-- What happens next. A reader steps only in a slot that `register_thread` has given out.
pub data Action : Type 0 where
  registers : Action
  reader_enters : (slot now : ℕ) → Action
  reader_exits : (slot : ℕ) → Action
  calls_retire : Action
  retire_pushes : (call : ℕ) → Action
  reclaimer_steps : (now : ℕ) → Action

abbrev pub new_system : ℕ → System
new_system timeout_ms = record {
  rcu = new_rcu timeout_ms;
  readers = λ i. outside;
  sections = λ i. 0;
  retiring = [];
  reclaimer = idle;
}

-- The next state, with the items that are deleted.
unfoldable pub act : Action → System → List (DeferredDeletion Sections) × System
act registers s = ([], record s { rcu = (register_thread none s.rcu).2 })
act (reader_enters slot now) s =
    if ltb slot (num_slots s.rcu)
    then (let (reader, rcu) = enter_step now slot (s.readers slot) s.rcu in
        ([], record s { rcu = rcu; readers = put slot reader s.readers }))
    else ([], s)
act (reader_exits slot) s =
    if is_inside (s.readers slot)
    then (
      [],
      record s {
        rcu = exit slot s.rcu;
        readers = put slot outside s.readers;
        sections = put slot (s.sections slot + 1) s.sections;
      },
    )
    else ([], s)
act calls_retire s =
    let item = retire_load (some (open_sections max_rcu_threads s.readers s.sections)) s.rcu in
    ([], record s { retiring = s.retiring ++ item })
act (retire_pushes call) s =
    let (picked, rest) = pick call s.retiring in
    ([], record s { rcu = push_all picked s.rcu; retiring = rest })
act (reclaimer_steps now) s =
    let (deleted, reclaimer, rcu) = reclaim_step now s.reclaimer s.rcu in
    (deleted, record s { rcu = rcu; reclaimer = reclaimer })

unfoldable pub act_all : List Action → System → System
act_all [] s = s
act_all (a ∷ rest) s = act_all rest (act a s).1
