-- ===== src/Mpsc/Tests.antt =====
-- The theorems at concrete runs, and what a capacity of one does.
use ume.Prelude.{ℕ, ◌+◌, ◌^◌, ◌≤◌, ◌≡◌, refl, false, some, List, [], ◌∷◌, ◌++◌, arith, length, take}
use ume.Mpsc.{
  reading, Action, calls_enqueue, producer_steps, calls_dequeue, consumer_steps, new_system, act,
  act_all, enqueue_step, dequeue_step,
}
use ume.Mpsc.Fifo.{act_all-order}
use ume.Mpsc.Refusals.{enqueue_step-refused}

-- A call of `enqueue` that nobody disturbs.
abbrev enqueues : ℕ → ℕ → List (Action ℕ)
enqueues i item =
    calls_enqueue i item
    ∷ producer_steps i false
    ∷ producer_steps i false
    ∷ producer_steps i false
    ∷ producer_steps i false
    ∷ producer_steps i false
    ∷ []

-- Two producers race for the first place; the second wins, and its item leaves.
abbrev race : List (Action ℕ)
race =
    calls_enqueue 0 7 ∷ producer_steps 0 false ∷ producer_steps 0 false ∷ enqueues 1 8
    ++ producer_steps 0 false
      ∷ producer_steps 0 false
      ∷ calls_dequeue
      ∷ consumer_steps
      ∷ consumer_steps
      ∷ consumer_steps
      ∷ []

act_all-order_example :
    ((act_all 2 race (new_system 0)).popped
      ≡ take
          (length (act_all 2 race (new_system 0)).popped)
          (act_all 2 race (new_system 0)).claimed)
    × (length (act_all 2 race (new_system 0)).claimed
        ≤ length (act_all 2 race (new_system 0)).popped + 2 ^ 2)
act_all-order_example = act_all-order 2 race 0 (omega arith) (omega arith)

race_ends : (act_all 2 race (new_system 0)).popped ≡ 8 ∷ []
unfolding act_all act enqueue_step dequeue_step
race_ends = refl

abbrev overfull : List (Action ℕ)
overfull = enqueues 0 1 ++ enqueues 1 2 ++ calls_enqueue 2 3 ∷ producer_steps 2 false ∷ []

third_at_cell : (act_all 1 overfull (new_system 0)).producers 2 ≡ reading 3 2
unfolding act_all act enqueue_step
third_at_cell = refl

third_refused :
    (enqueue_step 1 false (reading 3 2) (act_all 1 overfull (new_system 0)).queue).0 ≡ some false
unfolding act_all act enqueue_step
third_refused = refl

enqueue_step-refused_example :
    length (act_all 1 overfull (new_system 0)).claimed
    ≡ length (act_all 1 overfull (new_system 0)).popped + 2 ^ 1
enqueue_step-refused_example =
    enqueue_step-refused 1 overfull 0 2 2 3 false (omega arith) (omega arith) third_at_cell
      third_refused

-- With a capacity of one the second call overwrites the first item, and both calls are accepted.
capacity_one : (act_all 0 (enqueues 0 1 ++ enqueues 1 2) (new_system 0)).claimed ≡ 1 ∷ 2 ∷ []
unfolding act_all act enqueue_step
capacity_one = refl
