-- ===== src/Mpsc/Steps.antt =====
-- Positions of a lap have cells of their own, and what a claim does.
use ume.Prelude.{
  ℕ, zero, suc, ◌+◌, ◌%◌, ◌^◌, ◌≤◌, ◌<◌, ◌≡◌, refl, sym, ap, subst, ◌∙◌, ◌≢◌, ◌⊎◌, inl, inr, some,
  List, [], ◌∷◌, ◌++◌, arith, dec_lt, ◌==◌, Bool-cases, length, take, length-append, put,
  get_elem?-append, get_elem?-last,
}
use ume.Spsc.Ring.{slots_differ}
use ume.Mpsc.{
  Producer, resting, loading, reading, claiming, filling, publishing, Consumer, waiting, checking,
  taking, releasing, leaving, System,
}
use ume.Mpsc.Invariant.{cell, ProducerHolds, ConsumerHolds, owned, IsSystem, owned-put}

-- Two positions of a lap have different cells.
pub cells_differ : (c d p q : ℕ) → d ≤ p → p < d + c → d ≤ q → q < d + c → p ≢ q → p % c ≢ q % c
cells_differ c d p q a b x y ne = elim (dec_lt p q) [
  | yes less ↦ slots_differ c p q less (omega arith)
  | no more ↦ λ e. slots_differ c q p (ground (arith, ne)) (omega arith) (sym e)
]

module _ {A : Type 0} where
  take-append_le : (n : ℕ) (xs ys : List A) → n ≤ length xs → take n (xs ++ ys) ≡ take n xs
  take-append_le zero xs ys h = refl
  take-append_le (suc n) [] ys h = ground arith
  take-append_le (suc n) (x ∷ xs) ys h = ap (◌∷◌ x) (take-append_le n xs ys (omega arith))

  -- The system after producer `i` has claimed the place at the cursor.
  abbrev pub claim : System A → ℕ → A → System A
  claim s i item = record s {
    queue = record s.queue { enqueue_cursor = length s.claimed + 1 };
    producers = put i (filling item (length s.claimed)) s.producers;
    claimed = s.claimed ++ item ∷ [];
  }

  more : (s : System A) (item : A) → length (s.claimed ++ item ∷ []) ≡ length s.claimed + 1
  more s item = length-append s.claimed (item ∷ [])

  claim-Holds :
      (k d i : ℕ) (s : System A) (item : A) (p : Producer A)
      → ProducerHolds s k d p
      → ProducerHolds (claim s i item) k d p
  claim-Holds k d i s item resting h = tt
  claim-Holds k d i s item (loading x) h = tt
  claim-Holds k d i s item (reading x pos) h = omega (arith, more s item)
  claim-Holds k d i s item (claiming x pos) (h, g) = (omega (arith, more s item), g)
  claim-Holds k d i s item (filling x pos) (a, b, c, e) =
      (a, omega (arith, more s item), c, get_elem?-append s.claimed _ pos x e)
  claim-Holds k d i s item (publishing x pos) ((a, b, c, e), g) =
      ((a, omega (arith, more s item), c, get_elem?-append s.claimed _ pos x e), g)

  claim-ConsumerHolds :
      (k d i : ℕ) (s : System A) (item : A) (c : Consumer A)
      → ConsumerHolds s k d c
      → ConsumerHolds (claim s i item) k d c
  claim-ConsumerHolds k d i s item waiting h = h
  claim-ConsumerHolds k d i s item (checking pos) h = h
  claim-ConsumerHolds k d i s item (taking pos) h = h
  claim-ConsumerHolds k d i s item (releasing x pos) (a, b, c, e) =
      (a, b, c, get_elem?-append s.claimed _ d x e)
  claim-ConsumerHolds k d i s item (leaving x pos) h = h

  abbrev pub Bounds : System A → ℕ → ℕ → ℕ → Type 0
  Bounds s k d pos = (d ≤ pos) × (pos < length s.claimed) × ((cell k s.queue pos).sequence ≡ pos)

  -- A position that is owned has been claimed.
  pub owned-bound :
      (k d : ℕ) (s : System A) (p : Producer A) (pos : ℕ)
      → owned p ≡ some pos
      → ProducerHolds s k d p
      → Bounds s k d pos
  owned-bound k d s resting pos e h = ground arith
  owned-bound k d s (loading x) pos e h = ground arith
  owned-bound k d s (reading x q) pos e h = ground arith
  owned-bound k d s (claiming x q) pos e h = ground arith
  owned-bound k d s (filling x q) pos e (a, b, c, g) = subst (Bounds s k d) (ground arith) (a, b, c)
  owned-bound k d s (publishing x q) pos e ((a, b, c, g), y) =
      subst (Bounds s k d) (ground arith) (a, b, c)

  claim-alone :
      (k i : ℕ) (s : System A) (item : A)
      → IsSystem k s
      → (a b p : ℕ) → owned ((claim s i item).producers a) ≡ some p
      → owned ((claim s i item).producers b) ≡ some p
      → a ≡ b
  claim-alone k i s item h a b p x y =
      go (owned-put s.producers i _ a p x) (owned-put s.producers i _ b p y)
    where
      old : (j : ℕ) → owned (s.producers j) ≡ some p → p < length s.claimed
      old j e = (owned-bound k (length s.popped) s (s.producers j) p e (h.producing j)).1

      Cases : ℕ → Type 0
      Cases j =
          ((j ≡ i) × (some (length s.claimed) ≡ some p))
          ⊎ ((j ≢ i) × (owned (s.producers j) ≡ some p))

      go : Cases a → Cases b → a ≡ b
      go (inl (e, _)) (inl (g, _)) = e ∙ sym g
      go (inl (_, e)) (inr (_, g)) = ground (arith, old b g)
      go (inr (_, e)) (inl (_, g)) = ground (arith, old a e)
      go (inr (_, e)) (inr (_, g)) = h.alone a b p e g

  pub claim-IsSystem :
      (k i : ℕ) (s : System A) (item : A)
      → length s.claimed < length s.popped + 2 ^ k
      → IsSystem k s
      → IsSystem k (claim s i item)
  claim-IsSystem k i s item lt h = record {
    cursor = omega (arith, more s item);
    low = omega (arith, more s item, h.low);
    room = omega (arith, more s item);
    order = h.order ∙ sym (take-append_le (length s.popped) s.claimed _ h.low);
    pending = λ p a b. elim (dec_lt p (length s.claimed)) [
      | yes old ↦ elim (h.pending p a old) [
        | inl e ↦ inl e
        | inr (e, g) ↦ inr (e, get_elem?-append s.claimed _ p _ g)
      ]
      | no new ↦ inl (h.vacant p (omega arith) (omega (arith, more s item)))
    ];
    vacant = λ p a b. h.vacant p (omega (arith, more s item)) b;
    producing = λ j. elim (Bool-cases (j == i)) [
      | inl same ↦ simp same (
        h.low,
        omega (arith, more s item),
        h.vacant (length s.claimed) (omega arith) lt,
        get_elem?-last s.claimed item,
      )
      | inr other ↦
          simp other (claim-Holds k (length s.popped) i s item (s.producers j) (h.producing j))
    ];
    alone = claim-alone k i s item h;
    consuming = claim-ConsumerHolds k (length s.popped) i s item s.consumer h.consuming;
  }
