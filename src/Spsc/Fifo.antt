-- ===== src/Spsc/Fifo.antt =====
-- What every interleaving of the two threads keeps: the queue is first in, first out.
use ume.Prelude.{
  ℕ, ◌+◌, ◌-◌, ◌%◌, ◌^◌, ◌≤◌, ◌<◌, ◌≡◌, ap, ap₂, subst, ◌∙◌, ◌↔◌, false, none, some, List, [], ◌∷◌,
  ◌++◌, arith, leb, length, length-append,
}
use ume.Spsc.{
  LockFreeSpscQueue, Producer, resting, refreshing, storing, publishing, Consumer, waiting,
  rereading, taking, leaving, is_full, push_step, pop_step, System, Action, calls_push,
  producer_steps, calls_pop, consumer_steps, new_system, start_push, start_pop, act, act_all,
}
use native.Mathlib.Nat.{pow-le-pow_right}
use ume.Spsc.Ring.{window, length-window}
use ume.Spsc.Invariant.{
  is_full_lem, ProducerHolds, ConsumerHolds, IsSystem, new_system-IsSystem, begin_push-Holds,
  begin_pop-Holds,
}
use ume.Spsc.Steps.{assemble, push_step-IsSystem, pop_step-IsSystem}

module _ {A : Type 0} where
  start_push-IsSystem :
      (k : ℕ) (x : A) (q : LockFreeSpscQueue A) (p : Producer A) (c : Consumer A)
      (pushed popped : List A)
      → 2 ^ k < 2 ^ 64
      → IsSystem k (assemble q p c pushed popped)
      → IsSystem k (assemble q (start_push k x q p) c pushed popped)
  start_push-IsSystem k x q resting c pushed popped small v = record {
    h = v.h;
    t = v.t;
    ct = v.ct;
    ch = v.ch;
    counters = v.counters;
    producing = begin_push-Holds k x q v.h v.t v.ct v.ch small v.counters;
    consuming = v.consuming;
    log = v.log;
  }
  start_push-IsSystem k x q (refreshing item head) c pushed popped small v = v
  start_push-IsSystem k x q (storing item head) c pushed popped small v = v
  start_push-IsSystem k x q (publishing item head) c pushed popped small v = v

  start_pop-IsSystem :
      (k : ℕ) (q : LockFreeSpscQueue A) (p : Producer A) (c : Consumer A) (pushed popped : List A)
      → 2 ^ k < 2 ^ 64
      → IsSystem k (assemble q p c pushed popped)
      → IsSystem k (assemble q p (start_pop q c) pushed popped)
  start_pop-IsSystem k q p waiting pushed popped small v = record {
    h = v.h;
    t = v.t;
    ct = v.ct;
    ch = v.ch;
    counters = v.counters;
    producing = v.producing;
    consuming = begin_pop-Holds k q v.h v.t v.ct v.ch small v.counters;
    log = v.log;
  }
  start_pop-IsSystem k q p (rereading tail) pushed popped small v = v
  start_pop-IsSystem k q p (taking tail) pushed popped small v = v
  start_pop-IsSystem k q p (leaving item tail) pushed popped small v = v

  act-IsSystem :
      (k : ℕ) (a : Action A) (s : System A)
      → k < 64
      → 2 ^ k < 2 ^ 64
      → IsSystem k s
      → IsSystem k (act k a s)
  unfolding act
  act-IsSystem k (calls_push x) s kk small v =
      start_push-IsSystem k x s.queue s.producer s.consumer s.pushed s.popped small v
  act-IsSystem k producer_steps s kk small v =
      push_step-IsSystem k s.queue s.producer s.consumer s.pushed s.popped kk small v
  act-IsSystem k calls_pop s kk small v =
      start_pop-IsSystem k s.queue s.producer s.consumer s.pushed s.popped small v
  act-IsSystem k consumer_steps s kk small v =
      pop_step-IsSystem k s.queue s.producer s.consumer s.pushed s.popped kk small v

  pub act_all-IsSystem :
      (k : ℕ) (actions : List (Action A)) (s : System A)
      → k < 64
      → IsSystem k s
      → IsSystem k (act_all k actions s)
  unfolding act_all
  act_all-IsSystem k [] s kk v = v
  act_all-IsSystem k (a ∷ actions) s kk v = act_all-IsSystem k actions (act k a s) kk (
      act-IsSystem k a s kk
        (omega (arith, pow-le-pow_right {n = 2} (omega arith) {i = k} {j = 63} (omega arith))) v)

  -- For any interleaving of the steps of one producer and one consumer on a new queue of capacity
  -- `2 ^ k`, counters that wrap at 64 bits included: the items accepted by `push` so far are the
  -- items given out by `pop` so far, in the same order, followed by at most `2 ^ k` items that are
  -- still in the queue.
  pub act_all-fifo :
      (k : ℕ) (actions : List (Action A)) (fill : A)
      → k < 64
      → let s = act_all k actions (new_system fill) in
        (contents : List A) × (s.pushed ≡ s.popped ++ contents) × (length contents ≤ 2 ^ k)
  act_all-fifo k actions fill kk =
      let v = act_all-IsSystem k actions (new_system fill) kk (new_system-IsSystem k fill) in
      let buffer = (act_all k actions (new_system fill)).queue.buffer in
      (
        window buffer (2 ^ k) v.t (v.h - v.t),
        v.log,
        omega (
          arith,
          length-window buffer (2 ^ k) v.t (v.h - v.t),
          v.counters.room,
          v.counters.stale_tail,
        ),
      )

  -- The number of items in the queue.
  length-pushed :
      (k : ℕ) (s : System A) (v : IsSystem k s) → length s.pushed ≡ length s.popped + (v.h - v.t)
  length-pushed k s v =
      ap length v.log
      ∙ (length-append s.popped (window s.queue.buffer (2 ^ k) v.t (v.h - v.t))
          ∙ ap (λ n. length s.popped + n) (length-window s.queue.buffer (2 ^ k) v.t (v.h - v.t)))

  refreshing-index :
      (k h ct : ℕ) (buffer : ℕ → A) (p : Producer A) (item : A) (index : ℕ)
      → p ≡ refreshing item index
      → ProducerHolds k h ct buffer p
      → index ≡ h % 2 ^ 64
  refreshing-index k h ct buffer p item index e v = subst (ProducerHolds k h ct buffer) e v

  rereading-index :
      (k t ch : ℕ) (buffer : ℕ → A) (c : Consumer A) (index : ℕ)
      → c ≡ rereading index
      → ConsumerHolds k t ch buffer c
      → index ≡ t % 2 ^ 64
  rereading-index k t ch buffer c index e v = subst (ConsumerHolds k t ch buffer) e v

  -- In a system that keeps the invariant, a `push` that is about to read `tail_` again is refused
  -- exactly if the queue then holds `2 ^ k` items, counted as those accepted less those given out.
  pub push_step-refused :
      (k : ℕ) (s : System A) (item : A) (index : ℕ)
      → k < 64
      → IsSystem k s
      → s.producer ≡ refreshing item index
      → ((push_step k s.producer s.queue).0 ≡ some false)
        ↔ (length s.pushed ≡ length s.popped + 2 ^ k)
  unfolding push_step
  push_step-refused k s item index kk v e =
      let n = v.counters in
      let small : 2 ^ k < 2 ^ 64 =
        omega (arith, pow-le-pow_right {n = 2} (omega arith) {i = k} {j = 63} (omega arith)) in
      let full : is_full k index s.queue.tail ≡ leb (v.t + 2 ^ k) v.h =
        ap₂ (is_full k)
          (refreshing-index k v.h v.ct s.queue.buffer s.producer item index e v.producing) n.tail
        ∙ is_full_lem k v.h v.t small (omega (arith, n.seen_head, n.stale_head))
            (omega (arith, n.room, n.stale_tail)) in
      let count = length-pushed k s v in
      rw (e, full) (ground (arith, count, n.room, n.stale_tail, n.seen_head, n.stale_head))

  -- In a system that keeps the invariant, a `pop` that is about to read `head_` again finds nothing
  -- exactly if the queue is then empty: every item accepted has been given out.
  pub pop_step-refused :
      (k : ℕ) (s : System A) (index : ℕ)
      → k < 64
      → IsSystem k s
      → s.consumer ≡ rereading index
      → ((pop_step k s.consumer s.queue).0 ≡ some none) ↔ (length s.pushed ≡ length s.popped)
  unfolding pop_step
  pop_step-refused k s index kk v e =
      let n = v.counters in
      let small : 2 ^ k < 2 ^ 64 =
        omega (arith, pow-le-pow_right {n = 2} (omega arith) {i = k} {j = 63} (omega arith)) in
      let count = length-pushed k s v in
      let at = rereading-index k v.t v.ch s.queue.buffer s.consumer index e v.consuming in
      rw e (ground (arith, count, at, n.head, n.room, n.stale_tail, n.seen_head, n.stale_head))
