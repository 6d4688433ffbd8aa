-- ===== src/Prediction/Sequential.antt =====
-- From accesses at a constant distance to a prediction.
use ume.Prelude.{◌+◌, ℕ, zero, suc, ◌≡◌, ◌≢◌, some, List, [], ◌∷◌, add64, lookup}
use ume.Floating.{Doubles, least}
use ume.Types.Tier
use ume.Learning.{MemoryPattern, PatternLearningEngine, learn_step, pattern_or_new, named}
use ume.Learning.Invariant.{Operation, accesses}
use ume.Prediction.{Prediction}

module _ (d : Doubles) (object_id : ℕ) where
  -- Accesses of one object from an address on, each a stride behind the one before. `clock i` is
  -- what the clock reads at the start and at the end of the access `i`.
  abbrev pub stream : (ℕ → ℕ × ℕ) → ℕ → ℕ → ℕ → ℕ → List (Operation d)
  stream clock i address stride zero = []
  stream clock i address stride (suc n) =
      accesses (clock i).0 (clock i).1 object_id address
      ∷ stream clock (i + 1) (add64 address stride) stride n

  -- No address of the stream is 0.
  abbrev pub NoNull : ℕ → ℕ → ℕ → Type 0
  NoNull address stride zero = Unit {0}
  NoNull address stride (suc n) = (address ≢ 0) × NoNull (add64 address stride) stride n

  -- A confidence that is raised by 0.1 a number of times, up to 1.
  abbrev pub climb : ℕ → d.Double → d.Double
  climb zero c = c
  climb (suc n) c = climb n (least d (d.of_nat 1) (d.plus c (d.fraction 1 10)))

  -- What is known of the object on the way: the stride and the address that the stream goes on
  -- from.
  record IsOnTrack (stride address : ℕ) (c : d.Double) (e : PatternLearningEngine d) : Type 0 where
    pattern : MemoryPattern d
    known : lookup object_id e.pattern_db ≡ some pattern
    has_object : pattern.object_id ≡ object_id
    has_stride : pattern.last_stride ≡ stride
    has_address : pattern.last_address ≡ address
    has_confidence : pattern.confidence ≡ c

  -- The step of the policy on the pattern of the object.
  abbrev stepped : ℕ → PatternLearningEngine d → ℕ → MemoryPattern d
  stepped start e address =
      learn_step d (named d object_id (pattern_or_new d (lookup object_id e.pattern_db))) address
        start
