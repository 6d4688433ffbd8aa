-- ===== src/Mpsc/Invariant.antt =====
-- The invariant of the queue with its threads. A position is a count that does not wrap.
use ume.Prelude.{
  ℕ, ◌+◌, ◌%◌, ◌^◌, ◌≤◌, ◌<◌, ◌≡◌, refl, sym, subst, ◌≢◌, ◌⊎◌, inl, inr, Option, none, some, arith,
  ◌==◌, if◌then◌else◌, ==_iff, Bool-cases, length, get_elem?, take, put,
}
use native.Mathlib.Nat.{mod-eq_of_lt}
use ume.Bits.{bit_and_mask}
use ume.Mpsc.{
  Cell, LockFreeMpscQueue, Producer, resting, loading, reading, claiming, filling, publishing,
  Consumer, waiting, checking, taking, releasing, leaving, masked, System, new_system,
}

pub masked_lem : (k p : ℕ) → masked k p ≡ p % 2 ^ k
masked_lem k p = bit_and_mask k p

module _ {A : Type 0} where
  -- The cell of a position.
  abbrev pub cell : ℕ → LockFreeMpscQueue A → ℕ → Cell A
  cell k q p = q.buffer (p % 2 ^ k)

  -- A producer that owns a position has its item there in the order of claims.
  abbrev pub Owns : System A → ℕ → ℕ → A → ℕ → Type 0
  Owns s k d item pos =
      (d ≤ pos)
      × (pos < length s.claimed)
      × ((cell k s.queue pos).sequence ≡ pos)
      × (get_elem? s.claimed pos ≡ some item)

  -- Where a producer stands, with `d` the number of places that have been given back.
  abbrev pub ProducerHolds : System A → ℕ → ℕ → Producer A → Type 0
  ProducerHolds s k d resting = Unit {0}
  ProducerHolds s k d (loading item) = Unit {0}
  ProducerHolds s k d (reading item pos) = pos ≤ length s.claimed
  ProducerHolds s k d (claiming item pos) = (pos ≤ length s.claimed) × (pos < d + 2 ^ k)
  ProducerHolds s k d (filling item pos) = Owns s k d item pos
  ProducerHolds s k d (publishing item pos) =
      Owns s k d item pos × ((cell k s.queue pos).content ≡ item)

  abbrev pub ConsumerHolds : System A → ℕ → ℕ → Consumer A → Type 0
  ConsumerHolds s k d waiting = s.queue.dequeue_cursor ≡ d
  ConsumerHolds s k d (checking pos) = (s.queue.dequeue_cursor ≡ d) × (pos ≡ d)
  ConsumerHolds s k d (taking pos) =
      (s.queue.dequeue_cursor ≡ d) × (pos ≡ d) × ((cell k s.queue d).sequence ≡ d + 1)
  ConsumerHolds s k d (releasing item pos) =
      (s.queue.dequeue_cursor ≡ d)
      × (pos ≡ d)
      × ((cell k s.queue d).sequence ≡ d + 1)
      × (get_elem? s.claimed d ≡ some item)
  ConsumerHolds s k d (leaving item pos) = (s.queue.dequeue_cursor ≡ pos) × (pos + 1 ≡ d)

  -- The position that a producer owns.
  abbrev pub owned : Producer A → Option ℕ
  owned (filling item pos) = some pos
  owned (publishing item pos) = some pos
  owned resting = none
  owned (loading item) = none
  owned (reading item pos) = none
  owned (claiming item pos) = none

  -- A position that is claimed and not given back: it waits for its producer, or holds its item.
  abbrev pub Pending : System A → ℕ → ℕ → Type 0
  Pending s k p =
      ((cell k s.queue p).sequence ≡ p)
      ⊎ (((cell k s.queue p).sequence ≡ p + 1)
          × (get_elem? s.claimed p ≡ some (cell k s.queue p).content))

  pub record IsSystem (k : ℕ) (s : System A) : Type 0 where
    pub cursor : s.queue.enqueue_cursor ≡ length s.claimed
    pub low : length s.popped ≤ length s.claimed
    pub room : length s.claimed ≤ length s.popped + 2 ^ k
    pub order : s.popped ≡ take (length s.popped) s.claimed
    pub pending : (p : ℕ) → length s.popped ≤ p → p < length s.claimed → Pending s k p
    pub vacant :
        (p : ℕ)
        → length s.claimed ≤ p
        → p < length s.popped + 2 ^ k
        → (cell k s.queue p).sequence ≡ p
    pub producing : (i : ℕ) → ProducerHolds s k (length s.popped) (s.producers i)
    pub alone :
        (i j p : ℕ) → owned (s.producers i) ≡ some p → owned (s.producers j) ≡ some p → i ≡ j
    pub consuming : ConsumerHolds s k (length s.popped) s.consumer

  pub new_system-IsSystem : (k : ℕ) (fill : A) → IsSystem k (new_system fill)
  new_system-IsSystem k fill = record {
    cursor = refl;
    low = omega arith;
    room = omega arith;
    order = refl;
    pending = λ p a b. ground arith;
    vacant = λ p a b. mod-eq_of_lt {n = p} {m = 2 ^ k} (omega arith);
    producing = λ i. tt;
    alone = λ i j p a b. ground arith;
    consuming = refl;
  }

  -- Who owns a position after producer `i` has gone on.
  pub owned-put :
      (f : ℕ → Producer A) (i : ℕ) (p' : Producer A) (a p : ℕ)
      → owned (put i p' f a) ≡ some p
      → ((a ≡ i) × (owned p' ≡ some p)) ⊎ ((a ≢ i) × (owned (f a) ≡ some p))
  owned-put f i p' a p x = elim (Bool-cases (a == i)) [
    | inl same ↦
        inl ((==_iff a i).0 same, subst (λ b. owned (if b then p' else f a) ≡ some p) same x)
    | inr other ↦ inr (ground arith, subst (λ b. owned (if b then p' else f a) ≡ some p) other x)
  ]

  pub owned-kept :
      (f : ℕ → Producer A) (i : ℕ) (p' : Producer A) (p : ℕ)
      → (owned p' ≡ some p → owned (f i) ≡ some p)
      → (a : ℕ) → owned (put i p' f a) ≡ some p
      → owned (f a) ≡ some p
  owned-kept f i p' p own a x = elim (owned-put f i p' a p x) [
    | inl (e, y) ↦ subst (λ j. owned (f j) ≡ some p) (sym e) (own y)
    | inr (_, y) ↦ y
  ]

  -- A producer goes on, without a change to what the threads share.
  pub goes_on-IsSystem :
      (k : ℕ) (s : System A) (i : ℕ) (p' : Producer A)
      → ProducerHolds s k (length s.popped) p'
      → ((p : ℕ) → owned p' ≡ some p → owned (s.producers i) ≡ some p)
      → IsSystem k s
      → IsSystem k (record s { producers = put i p' s.producers })
  goes_on-IsSystem k s i p' holds own h = record {
    cursor = h.cursor;
    low = h.low;
    room = h.room;
    order = h.order;
    pending = h.pending;
    vacant = h.vacant;
    producing = λ j. elim (Bool-cases (j == i)) [
      | inl same ↦ simp same holds
      | inr other ↦ simp other (h.producing j)
    ];
    alone = λ a b p x y.
        h.alone a b p (owned-kept s.producers i p' p (own p) a x)
          (owned-kept s.producers i p' p (own p) b y);
    consuming = h.consuming;
  }
