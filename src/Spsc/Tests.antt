-- ===== src/Spsc/Tests.antt =====
-- A queue of capacity 2 with numbers: a run of both threads, and systems at the limits.
use ume.Prelude.{ℕ, ◌^◌, ◌≤◌, ◌≡◌, refl, List, [], ◌∷◌, ◌++◌, arith, length}
use ume.Spsc.{
  Action, calls_push, producer_steps, calls_pop, consumer_steps, new_system, act_all, refreshing,
  rereading, push_step, act, begin_push, begin_pop,
}
use ume.Spsc.Fifo.{act_all-fifo}

abbrev one_push : ℕ → List (Action ℕ)
one_push item = calls_push item ∷ producer_steps ∷ producer_steps ∷ []

abbrev run : List (Action ℕ)
run =
    one_push 8
    ++ (calls_pop ∷ consumer_steps ∷ one_push 9)
    ++ (consumer_steps ∷ consumer_steps ∷ [])

act_all-fifo_example :
    let s = act_all 1 run (new_system 0) in
    (contents : List ℕ) × (s.pushed ≡ s.popped ++ contents) × (length contents ≤ 2 ^ 1)
act_all-fifo_example = act_all-fifo 1 run 0 (omega arith)

-- Two items are pushed, and a third `push` has begun; a `pop` on the empty queue has begun.
abbrev filling : List (Action ℕ)
filling = one_push 8 ++ one_push 9 ++ (calls_push 7 ∷ [])

abbrev emptying : List (Action ℕ)
emptying = calls_pop ∷ []

filling-refreshing : (act_all 1 filling (new_system 0)).producer ≡ refreshing 7 2
unfolding act_all act begin_push push_step
filling-refreshing = refl

emptying-rereading : (act_all 1 emptying (new_system 0)).consumer ≡ rereading 0
unfolding act_all act begin_pop
emptying-rereading = refl
