-- ===== src/Spsc/Invariant.antt =====
-- The invariant of the queue and its two threads, in counters that do not wrap.
use ume.Prelude.{
  ℕ, ◌+◌, ◌-◌, ◌%◌, ◌^◌, ◌≤◌, ◌<◌, ◌≡◌, refl, ap₂, ◌∙◌, inl, inr, ◌++◌, arith, leb, ◌==◌,
  Bool-cases, sub64,
}
use ume.Spsc.{
  LockFreeSpscQueue, Producer, resting, refreshing, storing, publishing, Consumer, waiting,
  rereading, taking, leaving, is_full, begin_push, begin_pop, System, new_system,
}
use ume.Spsc.Ring.{window}

-- The difference of two counters less than `2 ^ 64` apart.
sub64_lem : (h c : ℕ) → c ≤ h → h < c + 2 ^ 64 → sub64 (h % 2 ^ 64) (c % 2 ^ 64) ≡ h - c
sub64_lem h c p q = omega arith

-- What the test for a full queue finds.
pub is_full_lem :
    (k h c : ℕ)
    → 2 ^ k < 2 ^ 64
    → c ≤ h
    → h ≤ c + 2 ^ k
    → is_full k (h % 2 ^ 64) (c % 2 ^ 64) ≡ leb (c + 2 ^ k) h
is_full_lem k h c small p q = ground (arith, sub64_lem h c p)

module _ {A : Type 0} where
  -- Where the producer stands, with `h` the number of items accepted and `ct` that of items that it
  -- knows to be taken.
  abbrev pub ProducerHolds : ℕ → ℕ → ℕ → (ℕ → A) → Producer A → Type 0
  ProducerHolds k h ct buffer resting = Unit {0}
  ProducerHolds k h ct buffer (refreshing item head) = head ≡ h % 2 ^ 64
  ProducerHolds k h ct buffer (storing item head) = (head ≡ h % 2 ^ 64) × (h < ct + 2 ^ k)
  ProducerHolds k h ct buffer (publishing item head) =
      (head ≡ h % 2 ^ 64) × (h < ct + 2 ^ k) × (buffer (h % 2 ^ k) ≡ item)

  -- Where the consumer stands, with `t` the number of items taken and `ch` that of items that it
  -- knows to be there.
  abbrev pub ConsumerHolds : ℕ → ℕ → ℕ → (ℕ → A) → Consumer A → Type 0
  ConsumerHolds k t ch buffer waiting = Unit {0}
  ConsumerHolds k t ch buffer (rereading tail) = tail ≡ t % 2 ^ 64
  ConsumerHolds k t ch buffer (taking tail) = (tail ≡ t % 2 ^ 64) × (t < ch)
  ConsumerHolds k t ch buffer (leaving item tail) =
      (tail ≡ t % 2 ^ 64) × (t < ch) × (buffer (t % 2 ^ k) ≡ item)

  -- The counters that do not wrap behind the four of the queue: `ct ≤ t ≤ ch ≤ h ≤ ct + 2 ^ k`.
  pub record Counters (k : ℕ) (q : LockFreeSpscQueue A) (h t ct ch : ℕ) : Type 0 where
    pub head : q.head ≡ h % 2 ^ 64
    pub tail : q.tail ≡ t % 2 ^ 64
    pub cached_tail : q.cached_tail ≡ ct % 2 ^ 64
    pub cached_head : q.cached_head ≡ ch % 2 ^ 64
    pub stale_tail : ct ≤ t
    pub seen_head : t ≤ ch
    pub stale_head : ch ≤ h
    pub room : h ≤ ct + 2 ^ k

  pub record IsSystem (k : ℕ) (s : System A) : Type 0 where
    pub h : ℕ
    pub t : ℕ
    pub ct : ℕ
    pub ch : ℕ
    pub counters : Counters k s.queue h t ct ch
    pub producing : ProducerHolds k h ct s.queue.buffer s.producer
    pub consuming : ConsumerHolds k t ch s.queue.buffer s.consumer
    pub log : s.pushed ≡ s.popped ++ window s.queue.buffer (2 ^ k) t (h - t)

  pub new_system-IsSystem : (k : ℕ) (fill : A) → IsSystem k (new_system fill)
  new_system-IsSystem k fill = record {
    h = 0;
    t = 0;
    ct = 0;
    ch = 0;
    counters = record {
      head = refl;
      tail = refl;
      cached_tail = refl;
      cached_head = refl;
      stale_tail = omega arith;
      seen_head = omega arith;
      stale_head = omega arith;
      room = omega arith;
    };
    producing = tt;
    consuming = tt;
    log = refl;
  }

  pub begin_push-Holds :
      (k : ℕ) (item : A) (q : LockFreeSpscQueue A) (h t ct ch : ℕ)
      → 2 ^ k < 2 ^ 64
      → Counters k q h t ct ch
      → ProducerHolds k h ct q.buffer (begin_push k item q)
  unfolding begin_push
  begin_push-Holds k item q h t ct ch small c =
      let e : is_full k q.head q.cached_tail ≡ leb (ct + 2 ^ k) h =
        ap₂ (is_full k) c.head c.cached_tail
        ∙ is_full_lem k h ct small (omega (arith, c.stale_tail, c.seen_head, c.stale_head))
            c.room in
      elim (Bool-cases (leb (ct + 2 ^ k) h)) [
        | inl full ↦ simp (e, full) c.head
        | inr free ↦ simp (e, free) (c.head, ground arith)
      ]

  pub begin_pop-Holds :
      (k : ℕ) (q : LockFreeSpscQueue A) (h t ct ch : ℕ)
      → 2 ^ k < 2 ^ 64
      → Counters k q h t ct ch
      → ConsumerHolds k t ch q.buffer (begin_pop q)
  unfolding begin_pop
  begin_pop-Holds k q h t ct ch small c = elim (Bool-cases (q.cached_head == q.tail)) [
    | inl same ↦ simp same c.tail
    | inr differ ↦ simp differ (
      c.tail,
      ground (arith, c.cached_head, c.tail, c.seen_head, c.stale_head, c.room, c.stale_tail),
    )
  ]
