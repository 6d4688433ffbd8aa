-- ===== src/Mpsc.antt =====
-- `LockFreeMpscQueue` of core/include/ume/concurrency/mpsc_queue.h, with `Capacity` written `2 ^
-- k`, any number of producers and one consumer. A call is cut into steps that make at most one
-- access to shared memory each; all threads see them in one order. `dequeue_cursor_` is written by
-- the consumer alone. A signed difference of sizes is taken as the wrapped one, negative from `2 ^
-- 63` on.
pub mod Invariant
mod Steps
mod Writes
mod Takes
mod Moves
pub mod Fifo
pub mod Refusals
mod Tests
use ume.Prelude.{
  ℕ, ◌-◌, ◌^◌, bit_and, Bool, true, false, not, ◌&&◌, Option, none, some, List, [], ◌∷◌, ◌++◌, leb,
  ◌==◌, if◌then◌else◌, add64, sub64, put,
}

pub record Cell (A : Type 0) : Type 0 where
  pub sequence : ℕ
  pub content : A

pub record LockFreeMpscQueue (A : Type 0) : Type 0 where
  pub buffer : ℕ → Cell A
  pub enqueue_cursor : ℕ
  pub dequeue_cursor : ℕ

-- Where a producer stands in `enqueue`: between calls; before the load of the cursor, of the
-- sequence number; before the exchange; before the stores of the data, of the sequence number.
pub data Producer (A : Type 0) : Type 0 where
  resting : Producer A
  loading : (item : A) → Producer A
  reading : (item : A) (pos : ℕ) → Producer A
  claiming : (item : A) (pos : ℕ) → Producer A
  filling : (item : A) (pos : ℕ) → Producer A
  publishing : (item : A) (pos : ℕ) → Producer A

-- Where the consumer stands in `dequeue`: between calls; before the load of the sequence number, of
-- the data; before the stores of the sequence number, of the cursor.
pub data Consumer (A : Type 0) : Type 0 where
  waiting : Consumer A
  checking : (pos : ℕ) → Consumer A
  taking : (pos : ℕ) → Consumer A
  releasing : (item : A) (pos : ℕ) → Consumer A
  leaving : (item : A) (pos : ℕ) → Consumer A

-- `pos & kMask`.
abbrev pub masked : ℕ → ℕ → ℕ
masked k pos = bit_and pos (2 ^ k - 1)

-- `diff < 0`.
abbrev pub is_behind : ℕ → ℕ → Bool
is_behind seq pos = leb (2 ^ 63) (sub64 seq pos)

module _ {A : Type 0} where
  -- The constructor; `fill` is what the cells hold before they are written.
  abbrev pub new_queue : A → LockFreeMpscQueue A
  new_queue fill = record {
    buffer = λ i. record { sequence = i; content = fill };
    enqueue_cursor = 0;
    dequeue_cursor = 0;
  }

  -- A step of `enqueue`: what the call returns where it ends, the producer and the queue. The
  -- exchange is weak: it may fail spuriously.
  unfoldable pub enqueue_step :
      ℕ → Bool → Producer A → LockFreeMpscQueue A → Option Bool × Producer A × LockFreeMpscQueue A
  enqueue_step k spurious resting q = (none, resting, q)
  enqueue_step k spurious (loading item) q = (none, reading item q.enqueue_cursor, q)
  enqueue_step k spurious (reading item pos) q =
      let seq = (q.buffer (masked k pos)).sequence in
      if seq == pos
      then (none, claiming item pos, q)
      else if is_behind seq pos
      then (some false, resting, q)
      else (none, loading item, q)
  enqueue_step k spurious (claiming item pos) q =
      if not spurious && q.enqueue_cursor == pos
      then (none, filling item pos, record q { enqueue_cursor = add64 pos 1 })
      else (none, reading item q.enqueue_cursor, q)
  enqueue_step k spurious (filling item pos) q =
      let at = masked k pos in
      (
        none,
        publishing item pos,
        record q { buffer = put at (record (q.buffer at) { content = item }) q.buffer },
      )
  enqueue_step k spurious (publishing item pos) q =
      let at = masked k pos in
      (
        some true,
        resting,
        record q { buffer = put at (record (q.buffer at) { sequence = add64 pos 1 }) q.buffer },
      )

  -- A step of `dequeue`: what the call returns where it ends, with the element.
  unfoldable pub dequeue_step :
      ℕ → Consumer A → LockFreeMpscQueue A → Option (Option A) × Consumer A × LockFreeMpscQueue A
  dequeue_step k waiting q = (none, waiting, q)
  dequeue_step k (checking pos) q =
      if (q.buffer (masked k pos)).sequence == add64 pos 1
      then (none, taking pos, q)
      else (some none, waiting, q)
  dequeue_step k (taking pos) q = (none, releasing (q.buffer (masked k pos)).content pos, q)
  dequeue_step k (releasing item pos) q =
      let at = masked k pos in
      (
        none,
        leaving item pos,
        record q {
          buffer =
              put at (record (q.buffer at) { sequence = add64 (add64 pos (2 ^ k - 1)) 1 }) q.buffer;
        },
      )
  dequeue_step k (leaving item pos) q =
      (some (some item), waiting, record q { dequeue_cursor = add64 pos 1 })

  unfoldable pub approx_size : LockFreeMpscQueue A → ℕ
  approx_size q =
      if leb q.dequeue_cursor q.enqueue_cursor then q.enqueue_cursor - q.dequeue_cursor else 0

  unfoldable pub empty : LockFreeMpscQueue A → Bool
  empty q = approx_size q == 0

-- The queue with its threads, the items in the order in which their places were claimed, and those
-- whose places have been given back.
pub record System (A : Type 0) : Type 0 where
  pub queue : LockFreeMpscQueue A
  pub producers : ℕ → Producer A
  pub consumer : Consumer A
  pub claimed : List A
  pub popped : List A

pub data Action (A : Type 0) : Type 0 where
  calls_enqueue : (thread : ℕ) (item : A) → Action A
  producer_steps : (thread : ℕ) (spurious : Bool) → Action A
  calls_dequeue : Action A
  consumer_steps : Action A

module _ {A : Type 0} where
  abbrev pub new_system : A → System A
  new_system fill = record {
    queue = new_queue fill;
    producers = λ i. resting;
    consumer = waiting;
    claimed = [];
    popped = [];
  }

  -- A thread that is inside a call does not begin another.
  abbrev pub start_enqueue : A → Producer A → Producer A
  start_enqueue item resting = loading item
  start_enqueue item p = p

  abbrev pub start_dequeue : LockFreeMpscQueue A → Consumer A → Consumer A
  start_dequeue q waiting = checking q.dequeue_cursor
  start_dequeue q c = c

  -- The item of a producer that has just claimed its place.
  abbrev pub won : A → Producer A → List A
  won item (filling other at) = item ∷ []
  won item resting = []
  won item (loading other) = []
  won item (reading other at) = []
  won item (claiming other at) = []
  won item (publishing other at) = []

  abbrev pub newly_claimed : Producer A → Producer A → List A
  newly_claimed (claiming item pos) next = won item next
  newly_claimed resting next = []
  newly_claimed (loading item) next = []
  newly_claimed (reading item pos) next = []
  newly_claimed (filling item pos) next = []
  newly_claimed (publishing item pos) next = []

  abbrev pub given_back : Consumer A → List A
  given_back (releasing item pos) = item ∷ []
  given_back c = []

  unfoldable pub act : ℕ → Action A → System A → System A
  act k (calls_enqueue i item) s = record s {
    producers = put i (start_enqueue item (s.producers i)) s.producers;
  }
  act k (producer_steps i spurious) s =
      let (result, p, q) = enqueue_step k spurious (s.producers i) s.queue in
      record s {
        queue = q;
        producers = put i p s.producers;
        claimed = s.claimed ++ newly_claimed (s.producers i) p;
      }
  act k calls_dequeue s = record s { consumer = start_dequeue s.queue s.consumer }
  act k consumer_steps s =
      let (result, c, q) = dequeue_step k s.consumer s.queue in
      record s { queue = q; consumer = c; popped = s.popped ++ given_back s.consumer }

  unfoldable pub act_all : ℕ → List (Action A) → System A → System A
  act_all k [] s = s
  act_all k (a ∷ rest) s = act_all k rest (act k a s)
