-- ===== src/Learning/Invariant.antt =====
-- What holds of a database of patterns after any accesses and decays.
use ume.Prelude.{
  ℕ, ◌^◌, ◌<◌, ◌≡◌, refl, sym, subst, ◌∙◌, inl, inr, List, [], ◌∷◌, arith, ◌==◌, if◌then◌else◌,
  ==_iff, Bool-cases, add64, add32, lookup, insert, Fresh, IsMap, Fresh-insert,
}
use ume.Floating.{Doubles}
use ume.Learning.{
  MemoryPattern, PatternLearningEngine, learn_stride, learn_step, pattern_or_new, named,
  learn_access, decayed, is_faded, decay_all, decay_patterns,
}
use ume.Learning.Decay.{Fresh-decay_all}

-- Every number of a pattern is in the range of its type.
abbrev pub InRange : {d : Doubles} → MemoryPattern d → Type 0
InRange p =
    (p.object_id < 2 ^ 64)
    × (p.last_stride < 2 ^ 64)
    × (p.last_address < 2 ^ 64)
    × (p.access_count < 2 ^ 32)

-- The operations on an engine with the default policy, with what the clock reads.
pub data Operation (d : Doubles) : Type 0 where
  accesses : (start end object_id address : ℕ) → Operation d
  decays : d.Double → Operation d

abbrev pub OperationInRange : {d : Doubles} → Operation d → Type 0
OperationInRange (accesses start end object_id address) = (object_id < 2 ^ 64) × (address < 2 ^ 64)
OperationInRange (decays f) = Unit {0}

abbrev pub AllOperationsInRange : {d : Doubles} → List (Operation d) → Type 0
AllOperationsInRange [] = Unit {0}
AllOperationsInRange (o ∷ os) = OperationInRange o × AllOperationsInRange os

-- A database whose keys are distinct and are the objects of its patterns, with numbers in range.
abbrev pub IsSound : {d : Doubles} → List (ℕ × MemoryPattern d) → Type 0
IsSound [] = Unit {0}
IsSound ((k, p) ∷ db) = Fresh k db × (p.object_id ≡ k) × InRange p × IsSound db

module _ (d : Doubles) where
  abbrev pub perform : Operation d → PatternLearningEngine d → PatternLearningEngine d
  perform (accesses start end object_id address) e =
      learn_access d (learn_step d) start end object_id address e
  perform (decays f) e = decay_patterns d f e

  abbrev pub run : List (Operation d) → PatternLearningEngine d → PatternLearningEngine d
  run [] e = e
  run (o ∷ os) e = run os (perform o e)

  insert-IsSound :
      (k : ℕ) (p : MemoryPattern d) (db : List (ℕ × MemoryPattern d))
      → p.object_id ≡ k
      → InRange p
      → IsSound db
      → IsSound (insert k p db)
  insert-IsSound k p [] e r h = (tt, e, r, tt)
  insert-IsSound k p ((j, q) ∷ db) e r (f, eq, rq, h) = elim (Bool-cases (j == k)) [
    | inl same ↦ rw same (subst (λ i. Fresh i db) ((==_iff j k).0 same) f, e, r, h)
    | inr other ↦
        rw other (Fresh-insert k j p db (ground arith) f, eq, rq, insert-IsSound k p db e r h)
  ]

  named_lem :
      (k : ℕ) (p : MemoryPattern d)
      → p.object_id ≡ k
      → InRange p
      → ((named d k p).object_id ≡ k) × InRange (named d k p)
  named_lem k p e (ro, rs, ra, rc) = elim (Bool-cases (p.object_id == 0)) [
    | inl new ↦
        subst
          (λ b.
            let q = if b then record p { object_id = k } else p in (q.object_id ≡ k) × InRange q)
          (sym new) (refl, (omega (arith, e), rs, ra, rc))
    | inr old ↦
        subst
          (λ b.
            let q = if b then record p { object_id = k } else p in (q.object_id ≡ k) × InRange q)
          (sym old) (e, (ro, rs, ra, rc))
  ]

  -- The pattern of an object, or the new one that it gets.
  named-InRange :
      (k : ℕ) (db : List (ℕ × MemoryPattern d))
      → k < 2 ^ 64
      → IsSound db
      → let p = named d k (pattern_or_new d (lookup k db)) in (p.object_id ≡ k) × InRange p
  named-InRange k [] hk h = (refl, (hk, omega arith, omega arith, omega arith))
  named-InRange k ((j, q) ∷ db) hk (f, eq, r, h) = elim (Bool-cases (j == k)) [
    | inl same ↦ rw same (named_lem k q (eq ∙ (==_iff j k).0 same) r)
    | inr other ↦ rw other (named-InRange k db hk h)
  ]

  learn_stride_lem :
      (p : MemoryPattern d) (address : ℕ)
      → InRange p
      → let q = learn_stride d address p in
        (q.object_id ≡ p.object_id) × (q.last_stride < 2 ^ 64) × (q.access_count ≡ p.access_count)
  learn_stride_lem p address (ro, rs, ra, rc) = ground arith

  learn_step-InRange :
      (p : MemoryPattern d) (address now : ℕ)
      → address < 2 ^ 64
      → InRange p
      → let q = learn_step d p address now in (q.object_id ≡ p.object_id) × InRange q
  unfolding learn_step
  learn_step-InRange p address now ha (ro, rs, ra, rc) =
      let (e, hs, hc) =
        learn_stride_lem (record p { access_count = add32 p.access_count 1; last_seen = now })
          address (ro, rs, ra, omega arith) in
      (e, (omega (arith, e), hs, ha, omega (arith, hc)))

  decay_all-IsSound :
      (f : d.Double) (n : ℕ) (db : List (ℕ × MemoryPattern d))
      → IsSound db
      → IsSound (decay_all d f db n).0
  decay_all-IsSound f n [] h = tt
  decay_all-IsSound f n ((k, p) ∷ db) (h, e, r, hs) =
      elim (Bool-cases (is_faded d (decayed d f p))) [
        | inl faded ↦ rw faded (decay_all-IsSound f (add64 n 1) db hs)
        | inr kept ↦ rw kept (Fresh-decay_all d f k n db h, e, r, decay_all-IsSound f n db hs)
      ]

  perform-IsSound :
      (o : Operation d) (e : PatternLearningEngine d)
      → OperationInRange o
      → IsSound e.pattern_db
      → IsSound (perform o e).pattern_db
  unfolding learn_access decay_patterns
  perform-IsSound (accesses start end object_id address) e (hk, ha) h =
      let p = named d object_id (pattern_or_new d (lookup object_id e.pattern_db)) in
      let (id, r) = named-InRange object_id e.pattern_db hk h in
      let (same, r') = learn_step-InRange p address start ha r in
      insert-IsSound object_id (learn_step d p address start) e.pattern_db (same ∙ id) r' h
  perform-IsSound (decays f) e _ h =
      decay_all-IsSound f e.metrics.forgotten_patterns_count e.pattern_db h

  -- Whatever accesses and decays an engine with the default policy goes through, where identifiers
  -- and addresses are words of 64 bits: from a database that is sound (no two entries of one
  -- object, each pattern under the key of its object, every number in the range of its type) comes
  -- one that is sound.
  pub run-IsSound :
      (os : List (Operation d)) (e : PatternLearningEngine d)
      → AllOperationsInRange os
      → IsSound e.pattern_db
      → IsSound (run os e).pattern_db
  run-IsSound [] e hs h = h
  run-IsSound (o ∷ os) e (ho, hs) h = run-IsSound os (perform o e) hs (perform-IsSound o e ho h)

  pub IsSound-IsMap : (db : List (ℕ × MemoryPattern d)) → IsSound db → IsMap db
  IsSound-IsMap [] h = tt
  IsSound-IsMap ((k, p) ∷ db) (f, e, r, h) = (f, IsSound-IsMap db h)
