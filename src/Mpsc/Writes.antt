-- ===== src/Mpsc/Writes.antt =====
-- The stores of a producer into the cell of a place that it owns.
use ume.Prelude.{
  ℕ, ◌+◌, ◌%◌, ◌^◌, ◌≤◌, ◌<◌, ◌≡◌, refl, sym, ap, subst, ◌∙◌, ◌≢◌, inl, inr, some, arith, ◌==◌,
  ==_iff, Bool-cases, length, put, put_same, put_other,
}
use native.Mathlib.Nat.{one-le-pow}
use ume.Mpsc.Steps.{cells_differ, owned-bound}
use ume.Mpsc.{
  Cell, Producer, resting, loading, reading, claiming, filling, publishing, Consumer, waiting,
  checking, taking, releasing, leaving, System,
}
use ume.Mpsc.Invariant.{
  cell, Owns, ProducerHolds, ConsumerHolds, owned, Pending, IsSystem, owned-kept,
}

module _ {A : Type 0} where
  -- The system after producer `i` has stored cell `b` at its place `pos`.
  abbrev pub stored : ℕ → System A → ℕ → Producer A → ℕ → Cell A → System A
  stored k s i p' pos b = record s {
    queue = record s.queue { buffer = put (pos % 2 ^ k) b s.queue.buffer };
    producers = put i p' s.producers;
  }

  module _ (k : ℕ) (s : System A) (i : ℕ) (p' : Producer A) (pos : ℕ) (b : Cell A)
      (h : IsSystem k s) (own : owned (s.producers i) ≡ some pos) where
    bounds :
        (length s.popped ≤ pos) × (pos < length s.claimed) × ((cell k s.queue pos).sequence ≡ pos)
    bounds = owned-bound k (length s.popped) s (s.producers i) pos own (h.producing i)

    pub same_cell : cell k (stored k s i p' pos b).queue pos ≡ b
    same_cell = put_same (pos % 2 ^ k) b s.queue.buffer

    other_cell :
        (p : ℕ)
        → length s.popped ≤ p
        → p < length s.popped + 2 ^ k
        → p ≢ pos
        → cell k (stored k s i p' pos b).queue p ≡ cell k s.queue p
    other_cell p a c ne = put_other (pos % 2 ^ k) (p % 2 ^ k) b s.queue.buffer (
        cells_differ (2 ^ k) (length s.popped) p pos a c bounds.0 (omega (arith, h.room, bounds.1))
          ne)

    stored-Owns :
        (item : A) (p : ℕ)
        → p ≢ pos
        → Owns s k (length s.popped) item p
        → Owns (stored k s i p' pos b) k (length s.popped) item p
    stored-Owns item p ne (x, y, z, w) =
        (x, y, ap (λ c. c.sequence) (other_cell p x (omega (arith, h.room)) ne) ∙ z, w)

    stored-Holds :
        (p : Producer A)
        → ((q : ℕ) → owned p ≡ some q → q ≢ pos)
        → ProducerHolds s k (length s.popped) p
        → ProducerHolds (stored k s i p' pos b) k (length s.popped) p
    stored-Holds resting apart g = g
    stored-Holds (loading x) apart g = g
    stored-Holds (reading x q) apart g = g
    stored-Holds (claiming x q) apart g = g
    stored-Holds (filling x q) apart g = stored-Owns x q (apart q refl) g
    stored-Holds (publishing x q) apart ((u, v, w, z), g) = (
      stored-Owns x q (apart q refl) (u, v, w, z),
      ap (λ c. c.content) (other_cell q u (omega (arith, h.room)) (apart q refl)) ∙ g,
    )

    -- The cell that the consumer looks at has been published.
    head :
        (cell k s.queue (length s.popped)).sequence ≡ length s.popped + 1
        → (cell k (stored k s i p' pos b).queue (length s.popped)).sequence ≡ length s.popped + 1
    head z =
        ap (λ c. c.sequence)
          (other_cell (length s.popped) (omega arith) (omega (arith, one-le-pow k 2))
            (λ e. ground (arith, ap (λ j. (cell k s.queue j).sequence) e, bounds.2, z)))
        ∙ z

    stored-ConsumerHolds :
        (c : Consumer A)
        → ConsumerHolds s k (length s.popped) c
        → ConsumerHolds (stored k s i p' pos b) k (length s.popped) c
    stored-ConsumerHolds waiting g = g
    stored-ConsumerHolds (checking q) g = g
    stored-ConsumerHolds (leaving x q) g = g
    stored-ConsumerHolds (taking q) (x, y, z) = (x, y, head z)
    stored-ConsumerHolds (releasing item q) (x, y, z, w) = (x, y, head z, w)

    stored-Pending :
        Pending (stored k s i p' pos b) k pos
        → (p : ℕ) → length s.popped ≤ p
        → p < length s.claimed
        → Pending (stored k s i p' pos b) k p
    stored-Pending here p x y = elim (Bool-cases (p == pos)) [
      | inl same ↦ subst (Pending (stored k s i p' pos b) k) (sym ((==_iff p pos).0 same)) here
      | inr other ↦
          let e : cell k (stored k s i p' pos b).queue p ≡ cell k s.queue p =
            other_cell p x (omega (arith, h.room)) (ground arith) in
          elim (h.pending p x y) [
            | inl g ↦ inl (ap (λ c. c.sequence) e ∙ g)
            | inr (g, w) ↦ inr (ap (λ c. c.sequence) e ∙ g, w ∙ ap (λ c. some c.content) (sym e))
          ]
    ]

    pub stored-IsSystem :
        ((q : ℕ) → owned p' ≡ some q → q ≡ pos)
        → ProducerHolds (stored k s i p' pos b) k (length s.popped) p'
        → Pending (stored k s i p' pos b) k pos
        → IsSystem k (stored k s i p' pos b)
    stored-IsSystem its holds here = record {
      cursor = h.cursor;
      low = h.low;
      room = h.room;
      order = h.order;
      pending = stored-Pending here;
      vacant = λ p x y.
          ap (λ c. c.sequence) (other_cell p (omega (arith, h.low)) y (ground (arith, bounds.1)))
          ∙ h.vacant p x y;
      producing = λ j. elim (Bool-cases (j == i)) [
        | inl same ↦ simp same holds
        | inr other ↦ simp other (
            stored-Holds (s.producers j)
              (λ q e same_pos. ground (arith, h.alone j i pos (e ∙ ap some same_pos) own))
              (h.producing j))
      ];
      alone = λ u v p x y.
          h.alone u v p (owned-kept s.producers i p' p (mine p) u x)
            (owned-kept s.producers i p' p (mine p) v y);
      consuming = stored-ConsumerHolds s.consumer h.consuming;
    }
      where
        mine : (p : ℕ) → owned p' ≡ some p → owned (s.producers i) ≡ some p
        mine p e = own ∙ ap some (sym (its p e))
