-- ===== src/Learning/Decay.antt =====
-- What decays and what is forgotten.
use ume.Prelude.{
  ◌&&◌, ℕ, inl, inr, Bool, Option, none, some, List, [], ◌∷◌, ◌==◌, if◌then◌else◌, Bool-cases,
  add64, Fresh, IsMap,
}
use ume.Floating.{Doubles, greatest}
use ume.Learning.{MemoryPattern, decayed, is_faded, decay_all}

module _ (d : Doubles) where
  -- What is to be left of a pattern.
  abbrev pub survivor : d.Double → Option (MemoryPattern d) → Option (MemoryPattern d)
  survivor f none = none
  survivor f (some p) =
      let confidence = greatest d (d.of_nat 0) (d.minus p.confidence f) in
      let recency_score = greatest d (d.of_nat 0) (d.minus p.recency_score f) in
      if d.less confidence (d.fraction 1 10) && d.less recency_score (d.fraction 1 10)
      then none
      else some (record p { confidence = confidence; recency_score = recency_score })

  pub Fresh-decay_all :
      (f : d.Double) (j n : ℕ) (db : List (ℕ × MemoryPattern d))
      → Fresh j db
      → Fresh j (decay_all d f db n).0
  Fresh-decay_all f j n [] h = tt
  Fresh-decay_all f j n ((k, p) ∷ db) (h, hs) = elim (Bool-cases (is_faded d (decayed d f p))) [
    | inl faded ↦ rw faded (Fresh-decay_all f j (add64 n 1) db hs)
    | inr kept ↦ rw kept (h, Fresh-decay_all f j n db hs)
  ]

  pub decay_all-IsMap :
      (f : d.Double) (n : ℕ) (db : List (ℕ × MemoryPattern d))
      → IsMap db
      → IsMap (decay_all d f db n).0
  decay_all-IsMap f n [] h = tt
  decay_all-IsMap f n ((k, p) ∷ db) (h, hs) = elim (Bool-cases (is_faded d (decayed d f p))) [
    | inl faded ↦ rw faded (decay_all-IsMap f (add64 n 1) db hs)
    | inr kept ↦ rw kept (Fresh-decay_all f k n db h, decay_all-IsMap f n db hs)
  ]

  -- What a search finds with one more entry in front, by whether its pattern is forgotten.
  abbrev front :
      Bool → ℕ → ℕ → MemoryPattern d → Option (MemoryPattern d) → Option (MemoryPattern d)
  front faded i k p rest = if faded then rest else if k == i then some p else rest
