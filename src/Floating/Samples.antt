-- ===== src/Floating/Samples.antt =====
-- Doubles for examples: thousandths from -1 upwards, each as a number one thousand above.
use ume.Prelude.{ℕ, ◌+◌, ◌-◌, ◌*◌, ◌/◌, ltb}
use ume.Floating.{Doubles}

abbrev pub thousandths : Doubles
thousandths = record {
  Double = ℕ;
  less = ltb;
  plus = λ a b. a + b - 1000;
  minus = λ a b. a + 1000 - b;
  times = λ a b. (a - 1000) * (b - 1000) / 1000 + 1000;
  divided = λ a b. (a - 1000) * 1000 / (b - 1000) + 1000;
  of_nat = λ n. n * 1000 + 1000;
  fraction = λ a b. a * 1000 / b + 1000;
  minus_one = 0;
  to_uint64 = λ a. (a - 1000) / 1000;
}
