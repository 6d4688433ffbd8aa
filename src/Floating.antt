-- ===== src/Floating.antt =====
-- `double`, which is a parameter of the code that computes with it.
pub mod Samples
use ume.Prelude.{ℕ, Bool, if◌then◌else◌}

-- `double`: the operations that the code uses, with the values of whole numbers and of the
-- fractions that the literals write.
pub record Doubles : Type 1 where
  pub Double : Type 0
  pub less : Double → Double → Bool
  pub plus : Double → Double → Double
  pub minus : Double → Double → Double
  pub times : Double → Double → Double
  pub divided : Double → Double → Double
  pub of_nat : ℕ → Double
  pub fraction : (numerator denominator : ℕ) → Double
  pub minus_one : Double
  pub to_uint64 : Double → ℕ

module _ (d : Doubles) where
  -- `std::min` and `std::max`.
  abbrev pub least : d.Double → d.Double → d.Double
  least a b = if d.less b a then b else a

  abbrev pub greatest : d.Double → d.Double → d.Double
  greatest a b = if d.less a b then b else a
