-- ===== src/Bytes.antt =====
-- Little-endian integers in byte buffers: what `memcpy` of a scalar leaves in memory.
use ume.Prelude.{
  ℕ, zero, suc, ◌+◌, ◌*◌, ◌/◌, ◌%◌, ◌^◌, ◌<◌, ◌≡◌, refl, List, [], ◌∷◌, length, take, drop, arith,
}
use native.Mathlib.Nat.{pow-suc}

-- The `n` bytes of `x`, lowest first.
abbrev pub to_le : ℕ → ℕ → List ℕ
to_le zero x = []
to_le (suc n) x = (x % 256) ∷ to_le n (x / 256)

abbrev pub of_le : List ℕ → ℕ
of_le [] = 0
of_le (b ∷ bs) = b + 256 * of_le bs

-- The integer of `n` bytes at an offset.
abbrev pub field : ℕ → ℕ → List ℕ → ℕ
field off n bs = of_le (take n (drop off bs))

pub of_le-to_le : (n x : ℕ) → x < 256 ^ n → of_le (to_le n x) ≡ x
of_le-to_le zero x h = omega arith
of_le-to_le (suc n) x h =
    omega (arith, pow-suc 256 n, of_le-to_le n (x / 256) (omega (arith, pow-suc 256 n)))

pub length-to_le : (n x : ℕ) → length (to_le n x) ≡ n
length-to_le zero x = refl
length-to_le (suc n) x = omega (arith, length-to_le n (x / 256))
