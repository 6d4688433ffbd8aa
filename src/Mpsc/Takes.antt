-- ===== src/Mpsc/Takes.antt =====
-- The consumer gives back a place.
use ume.Prelude.{
  ℕ, zero, suc, ◌+◌, ◌%◌, ◌^◌, ◌≤◌, ◌<◌, ◌≡◌, sym, ap, ◌∙◌, inl, inr, some, List, [], ◌∷◌, ◌++◌,
  arith, dec_lt, ◌==◌, ==_iff, Bool-cases, length, get_elem?, take, length-append, put, put_same,
  put_other,
}
use native.Mathlib.Nat.{one-le-pow, add-mod_right}
use ume.Mpsc.Steps.{cells_differ}
use ume.Mpsc.{Producer, resting, loading, reading, claiming, filling, publishing, leaving, System}
use ume.Mpsc.Invariant.{cell, Owns, ProducerHolds, IsSystem}

module _ {A : Type 0} where
  take-snoc :
      (xs : List A) (n : ℕ) (x : A)
      → get_elem? xs n ≡ some x
      → take n xs ++ x ∷ [] ≡ take (suc n) xs
  take-snoc [] n x h = ground arith
  take-snoc (y ∷ xs) zero x h = ap (λ z. z ∷ []) (ground arith)
  take-snoc (y ∷ xs) (suc n) x h = ap (◌∷◌ y) (take-snoc xs n x h)

  -- A place that is published has been claimed.
  pub waits :
      (k : ℕ) (s : System A)
      → IsSystem k s
      → (cell k s.queue (length s.popped)).sequence ≡ length s.popped + 1
      → length s.popped < length s.claimed
  waits k s h published = elim (dec_lt (length s.popped) (length s.claimed)) [
    | yes lt ↦ lt
    | no le ↦
        ground (
          arith,
          h.vacant (length s.popped) (omega arith) (omega (arith, one-le-pow k 2)),
          published,
        )
  ]

  -- The system after the consumer has stored the sequence number of the next lap.
  abbrev pub released : ℕ → System A → A → System A
  released k s item = record s {
    queue = record s.queue {
      buffer =
          put (length s.popped % 2 ^ k)
            (record (cell k s.queue (length s.popped)) { sequence = length s.popped + 2 ^ k })
            s.queue.buffer;
    };
    consumer = leaving item (length s.popped);
    popped = s.popped ++ item ∷ [];
  }

  module _ (k : ℕ) (s : System A) (item : A) (h : IsSystem k s)
      (cursor : s.queue.dequeue_cursor ≡ length s.popped)
      (published : (cell k s.queue (length s.popped)).sequence ≡ length s.popped + 1)
      (front : get_elem? s.claimed (length s.popped) ≡ some item) where
    more : length (s.popped ++ item ∷ []) ≡ length s.popped + 1
    more = length-append s.popped (item ∷ [])

    other_cell :
        (p : ℕ)
        → length s.popped < p
        → p < length s.popped + 2 ^ k
        → cell k (released k s item).queue p ≡ cell k s.queue p
    other_cell p a c = put_other (length s.popped % 2 ^ k) (p % 2 ^ k) _ s.queue.buffer (
        cells_differ (2 ^ k) (length s.popped) p (length s.popped) (omega arith) c (omega arith)
          (omega arith) (omega arith))

    -- A place that a producer owns is behind that which is given back.
    behind : (p : ℕ) → length s.popped ≤ p → (cell k s.queue p).sequence ≡ p → length s.popped < p
    behind p a e = elim (Bool-cases (p == length s.popped)) [
      | inl same ↦ ground (
        arith,
        ap (λ j. (cell k s.queue j).sequence) ((==_iff p (length s.popped)).0 same),
        published,
      )
      | inr other ↦ ground arith
    ]

    released-Owns :
        (x : A) (p : ℕ)
        → Owns s k (length s.popped) x p
        → Owns (released k s item) k (length (released k s item).popped) x p
    released-Owns x p (a, b, c, d) =
        let lt : length s.popped < p = behind p a c in
        (
          omega (arith, more),
          b,
          ap (λ c. c.sequence) (other_cell p lt (omega (arith, h.room))) ∙ c,
          d,
        )

    released-Holds :
        (p : Producer A)
        → ProducerHolds s k (length s.popped) p
        → ProducerHolds (released k s item) k (length (released k s item).popped) p
    released-Holds resting g = g
    released-Holds (loading x) g = g
    released-Holds (reading x q) g = g
    released-Holds (claiming x q) (a, b) = (a, omega (arith, more))
    released-Holds (filling x q) g = released-Owns x q g
    released-Holds (publishing x q) ((a, b, c, d), g) =
        let lt : length s.popped < q = behind q a c in
        (
          released-Owns x q (a, b, c, d),
          ap (λ c. c.content) (other_cell q lt (omega (arith, h.room))) ∙ g,
        )

    pub released-IsSystem : IsSystem k (released k s item)
    released-IsSystem = record {
      cursor = h.cursor;
      low = omega (arith, more, waits k s h published);
      room = omega (arith, more, h.room);
      order =
          ap (λ l. l ++ item ∷ []) h.order
          ∙ take-snoc s.claimed (length s.popped) item front
          ∙ ap (λ n. take n s.claimed) {x = suc (length s.popped)} (omega (arith, more));
      pending = λ p a b.
          let lt : length s.popped < p = omega (arith, more) in
          let e : cell k (released k s item).queue p ≡ cell k s.queue p =
            other_cell p lt (omega (arith, h.room)) in
          elim (h.pending p (omega arith) b) [
            | inl g ↦ inl (ap (λ c. c.sequence) e ∙ g)
            | inr (g, w) ↦ inr (ap (λ c. c.sequence) e ∙ g, w ∙ ap (λ c. some c.content) (sym e))
          ];
      vacant = λ p a b. elim (dec_lt p (length s.popped + 2 ^ k)) [
        | yes lt ↦
            ap (λ c. c.sequence) (other_cell p (omega (arith, waits k s h published)) lt)
            ∙ h.vacant p a lt
        | no ge ↦
            let e : p ≡ length s.popped + 2 ^ k = omega (arith, more) in
            let m : p % 2 ^ k ≡ length s.popped % 2 ^ k =
              ap (λ n. n % 2 ^ k) e ∙ add-mod_right (length s.popped) (2 ^ k) in
            ap
              (λ n.
                (put (length s.popped % 2 ^ k)
                  (record (cell k s.queue (length s.popped)) { sequence = length s.popped + 2 ^ k })
                  s.queue.buffer n).sequence)
              m
            ∙ ap (λ c. c.sequence) (put_same (length s.popped % 2 ^ k) _ s.queue.buffer)
            ∙ sym e
      ];
      producing = λ j. released-Holds (s.producers j) (h.producing j);
      alone = h.alone;
      consuming = (cursor, sym more);
    }
