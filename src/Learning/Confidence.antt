-- ===== src/Learning/Confidence.antt =====
-- The bounds of the confidence.
use ume.Prelude.{
  ℕ, ◌≡◌, inl, inr, true, false, List, [], ◌∷◌, ◌==◌, Bool-cases, add64, sub64, lookup, insert,
}
use ume.Floating.{Doubles, least, greatest}
use ume.Learning.{
  MemoryPattern, PatternLearningEngine, learn_step, pattern_or_new, named, learn_access, decayed,
  is_faded, decay_all, decay_patterns,
}
use ume.Learning.Invariant.{Operation, accesses, decays, perform, run}

-- What the comparison, the addition and the subtraction of doubles do, rounding included.
pub record HasBounds (d : Doubles) : Type 0 where
  pub less_irrefl : (a : d.Double) → d.less a a ≡ false
  pub less_asymm : (a b : d.Double) → d.less a b ≡ true → d.less b a ≡ false
  pub one_zero : d.less (d.of_nat 1) (d.of_nat 0) ≡ false
  pub half_zero : d.less (d.fraction 5 10) (d.of_nat 0) ≡ false
  pub one_half : d.less (d.of_nat 1) (d.fraction 5 10) ≡ false
  pub twentieth_zero : d.less (d.fraction 5 100) (d.of_nat 0) ≡ false
  pub plus_tenth :
      (a : d.Double)
      → d.less a (d.of_nat 0) ≡ false
      → d.less (d.plus a (d.fraction 1 10)) (d.of_nat 0) ≡ false
  pub minus_least :
      (a b : d.Double)
      → d.less (d.of_nat 1) a ≡ false
      → d.less b (d.of_nat 0) ≡ false
      → d.less (d.of_nat 1) (d.minus a b) ≡ false

module _ (d : Doubles) where
  -- Not below 0 and not above 1.
  abbrev pub IsWithin : d.Double → Type 0
  IsWithin c = (d.less c (d.of_nat 0) ≡ false) × (d.less (d.of_nat 1) c ≡ false)

  abbrev pub AllWithin : List (ℕ × MemoryPattern d) → Type 0
  AllWithin [] = Unit {0}
  AllWithin ((k, p) ∷ db) = IsWithin p.confidence × AllWithin db

  -- No operation decays by a factor below 0.
  abbrev pub FactorsOk : List (Operation d) → Type 0
  FactorsOk [] = Unit {0}
  FactorsOk (accesses start end object_id address ∷ os) = FactorsOk os
  FactorsOk (decays f ∷ os) = (d.less f (d.of_nat 0) ≡ false) × FactorsOk os

  module _ (laws : HasBounds d) where
    lowered-IsWithin :
        (c f : d.Double)
        → d.less f (d.of_nat 0) ≡ false
        → IsWithin c
        → IsWithin (greatest d (d.of_nat 0) (d.minus c f))
    lowered-IsWithin c f hf (lo, hi) = elim (Bool-cases (d.less (d.of_nat 0) (d.minus c f))) [
      | inl above ↦ rw above (laws.less_asymm _ _ above, laws.minus_least c f hi hf)
      | inr below ↦ rw below (laws.less_irrefl _, laws.one_zero)
    ]

    raised-IsWithin :
        (c : d.Double) → IsWithin c → IsWithin (least d (d.of_nat 1) (d.plus c (d.fraction 1 10)))
    raised-IsWithin c (lo, hi) =
        elim (Bool-cases (d.less (d.plus c (d.fraction 1 10)) (d.of_nat 1))) [
          | inl less ↦ rw less (laws.plus_tenth c lo, laws.less_asymm _ _ less)
          | inr not_less ↦ rw not_less (laws.one_zero, laws.less_irrefl _)
        ]

    learn_step-IsWithin :
        (p : MemoryPattern d) (address now : ℕ)
        → IsWithin p.confidence
        → IsWithin (learn_step d p address now).confidence
    unfolding learn_step
    learn_step-IsWithin p address now h =
        let raised = raised-IsWithin p.confidence h in
        let lowered = lowered-IsWithin p.confidence (d.fraction 5 100) laws.twentieth_zero h in
        elim (Bool-cases (p.last_address == 0)) [
          | inl first ↦ rw first h
          | inr known ↦ elim (Bool-cases (sub64 address p.last_address == p.last_stride)) [
            | inl same ↦ rw (known, same) raised
            | inr other ↦ rw (known, other) lowered
          ]
        ]

    new-IsWithin :
        (k : ℕ) (db : List (ℕ × MemoryPattern d))
        → AllWithin db
        → IsWithin (named d k (pattern_or_new d (lookup k db))).confidence
    new-IsWithin k [] h = (laws.half_zero, laws.one_half)
    new-IsWithin k ((j, q) ∷ db) (h, hs) = elim (Bool-cases (j == k)) [
      | inl same ↦ rw same (named_confidence q h)
      | inr other ↦ rw other (new-IsWithin k db hs)
    ]
      where
        named_confidence :
            (q : MemoryPattern d) → IsWithin q.confidence → IsWithin (named d k q).confidence
        named_confidence q h = elim (Bool-cases (q.object_id == 0)) [
          | inl new ↦ rw new h
          | inr old ↦ rw old h
        ]

    insert-AllWithin :
        (k : ℕ) (p : MemoryPattern d) (db : List (ℕ × MemoryPattern d))
        → IsWithin p.confidence
        → AllWithin db
        → AllWithin (insert k p db)
    insert-AllWithin k p [] h hs = (h, tt)
    insert-AllWithin k p ((j, q) ∷ db) h (hq, hs) = elim (Bool-cases (j == k)) [
      | inl same ↦ rw same (h, hs)
      | inr other ↦ rw other (hq, insert-AllWithin k p db h hs)
    ]

    decay_all-AllWithin :
        (f : d.Double) (n : ℕ) (db : List (ℕ × MemoryPattern d))
        → d.less f (d.of_nat 0) ≡ false
        → AllWithin db
        → AllWithin (decay_all d f db n).0
    decay_all-AllWithin f n [] hf h = tt
    decay_all-AllWithin f n ((k, p) ∷ db) hf (h, hs) =
        elim (Bool-cases (is_faded d (decayed d f p))) [
          | inl faded ↦ rw faded (decay_all-AllWithin f (add64 n 1) db hf hs)
          | inr kept ↦
              rw kept (lowered-IsWithin p.confidence f hf h, decay_all-AllWithin f n db hf hs)
        ]

    -- Whatever accesses and decays an engine with the default policy goes through, where the
    -- comparison and the arithmetic of doubles have the laws above and no decay has a factor below
    -- 0: if every confidence was at least 0 and at most 1 before, every one is so afterwards.
    pub run-AllWithin :
        (os : List (Operation d)) (e : PatternLearningEngine d)
        → FactorsOk os
        → AllWithin e.pattern_db
        → AllWithin (run d os e).pattern_db
    unfolding learn_access decay_patterns
    run-AllWithin [] e hs h = h
    run-AllWithin (accesses start end object_id address ∷ os) e hs h =
        run-AllWithin os (perform d (accesses start end object_id address) e) hs (
          insert-AllWithin object_id _ e.pattern_db
            (learn_step-IsWithin
              (named d object_id (pattern_or_new d (lookup object_id e.pattern_db))) address start
              (new-IsWithin object_id e.pattern_db h))
            h)
    run-AllWithin (decays f ∷ os) e (hf, hs) h =
        run-AllWithin os (perform d (decays f) e) hs
          (decay_all-AllWithin f e.metrics.forgotten_patterns_count e.pattern_db hf h)
