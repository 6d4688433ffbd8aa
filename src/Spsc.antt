-- ===== src/Spsc.antt =====
-- `LockFreeSpscQueue` of core/include/ume/concurrency/spsc_queue.h, with `Capacity` written `2 ^
-- k`. A call of `push` or `pop` is cut into the steps between which the other thread may run: each
-- step makes at most one access to what the threads share. The steps of the two threads interleave
-- freely; the acquire and release orders that make them appear in one order are taken for granted.
-- `head_` is written by the producer alone and `tail_` by the consumer alone, so that a thread's
-- own load of it belongs to the step that follows.
pub mod Ring
pub mod Invariant
pub mod Steps
pub mod Fifo
mod Tests
use ume.Prelude.{
  ℕ, ◌-◌, ◌^◌, bit_and, Bool, true, false, Option, none, some, List, [], ◌∷◌, ◌++◌, leb, ◌==◌,
  if◌then◌else◌, add64, sub64,
}
use ume.Bits.{bit_and_mask}

pub record LockFreeSpscQueue {ℓ} (A : Type ℓ) : Type ℓ where
  pub head : ℕ
  pub cached_tail : ℕ
  pub tail : ℕ
  pub cached_head : ℕ
  pub buffer : ℕ → A

-- Where the producer stands: between calls, behind a first test that failed, before the store into
-- the buffer, before the store to `head_`.
pub data Producer {ℓ} (A : Type ℓ) : Type ℓ where
  resting : Producer A
  refreshing : (item : A) (head : ℕ) → Producer A
  storing : (item : A) (head : ℕ) → Producer A
  publishing : (item : A) (head : ℕ) → Producer A

-- Where the consumer stands, likewise.
pub data Consumer {ℓ} (A : Type ℓ) : Type ℓ where
  waiting : Consumer A
  rereading : (tail : ℕ) → Consumer A
  taking : (tail : ℕ) → Consumer A
  leaving : (item : A) (tail : ℕ) → Consumer A

-- An index masked by `kMask`.
abbrev pub slot : ℕ → ℕ → ℕ
slot k i = bit_and i (2 ^ k - 1)

-- `head - cached >= Capacity`.
abbrev pub is_full : ℕ → ℕ → ℕ → Bool
is_full k head cached = leb (2 ^ k) (sub64 head cached)

module _ {ℓ} {A : Type ℓ} where
  -- The constructor; the buffer's cells hold `fill`.
  abbrev pub new_queue : A → LockFreeSpscQueue A
  new_queue fill = record {
    head = 0;
    cached_tail = 0;
    tail = 0;
    cached_head = 0;
    buffer = λ i. fill;
  }

  abbrev pub store : ℕ → A → (ℕ → A) → ℕ → A
  store at item buffer i = if i == at then item else buffer i

  unfoldable pub begin_push : ℕ → A → LockFreeSpscQueue A → Producer A
  begin_push k item q =
      if is_full k q.head q.cached_tail then refreshing item q.head else storing item q.head

  -- A step of `push`; what it returns where it ends.
  unfoldable pub push_step :
      ℕ → Producer A → LockFreeSpscQueue A → Option Bool × Producer A × LockFreeSpscQueue A
  push_step k resting q = (none, resting, q)
  push_step k (refreshing item head) q =
      if is_full k head q.tail
      then (some false, resting, record q { cached_tail = q.tail })
      else (none, storing item head, record q { cached_tail = q.tail })
  push_step k (storing item head) q =
      (none, publishing item head, record q { buffer = store (slot k head) item q.buffer })
  push_step k (publishing item head) q = (some true, resting, record q { head = add64 head 1 })

  unfoldable pub begin_pop : LockFreeSpscQueue A → Consumer A
  begin_pop q = if q.cached_head == q.tail then rereading q.tail else taking q.tail

  -- A step of `pop`; what it returns where it ends, with the item that it gives out.
  unfoldable pub pop_step :
      ℕ → Consumer A → LockFreeSpscQueue A → Option (Option A) × Consumer A × LockFreeSpscQueue A
  pop_step k waiting q = (none, waiting, q)
  pop_step k (rereading tail) q =
      if q.head == tail
      then (some none, waiting, record q { cached_head = q.head })
      else (none, taking tail, record q { cached_head = q.head })
  pop_step k (taking tail) q = (none, leaving (q.buffer (slot k tail)) tail, q)
  pop_step k (leaving item tail) q = (some (some item), waiting, record q { tail = add64 tail 1 })

  unfoldable pub front : ℕ → LockFreeSpscQueue A → Option A
  front k q = if q.tail == q.head then none else some (q.buffer (slot k q.tail))

  unfoldable pub approx_size : LockFreeSpscQueue A → ℕ
  approx_size q = if leb q.tail q.head then q.head - q.tail else 0

  unfoldable pub empty : LockFreeSpscQueue A → Bool
  empty q = approx_size q == 0

-- The queue with its two threads, what `push` has accepted so far, and what `pop` has given out.
pub record System {ℓ} (A : Type ℓ) : Type ℓ where
  pub queue : LockFreeSpscQueue A
  pub producer : Producer A
  pub consumer : Consumer A
  pub pushed : List A
  pub popped : List A

-- What happens next: a call begins, or a thread makes a step.
pub data Action {ℓ} (A : Type ℓ) : Type ℓ where
  calls_push : (item : A) → Action A
  producer_steps : Action A
  calls_pop : Action A
  consumer_steps : Action A

module _ {ℓ} {A : Type ℓ} where
  abbrev pub new_system : A → System A
  new_system fill = record {
    queue = new_queue fill;
    producer = resting;
    consumer = waiting;
    pushed = [];
    popped = [];
  }

  -- A thread that is inside a call does not begin another.
  abbrev pub start_push : ℕ → A → LockFreeSpscQueue A → Producer A → Producer A
  start_push k item q resting = begin_push k item q
  start_push k item q p = p

  abbrev pub start_pop : LockFreeSpscQueue A → Consumer A → Consumer A
  start_pop q waiting = begin_pop q
  start_pop q c = c

  abbrev pub accepted : Producer A → List A
  accepted (publishing item head) = item ∷ []
  accepted p = []

  abbrev pub given : Consumer A → List A
  given (leaving item tail) = item ∷ []
  given c = []

  unfoldable pub act : ℕ → Action A → System A → System A
  act k (calls_push item) s = record s { producer = start_push k item s.queue s.producer }
  act k producer_steps s =
      let (result, p, q) = push_step k s.producer s.queue in
      record s { queue = q; producer = p; pushed = s.pushed ++ accepted s.producer }
  act k calls_pop s = record s { consumer = start_pop s.queue s.consumer }
  act k consumer_steps s =
      let (result, c, q) = pop_step k s.consumer s.queue in
      record s { queue = q; consumer = c; popped = s.popped ++ given s.consumer }

  unfoldable pub act_all : ℕ → List (Action A) → System A → System A
  act_all k [] s = s
  act_all k (a ∷ rest) s = act_all k rest (act k a s)
