-- ===== src/Bits.antt =====
-- `^` and `&` on machine words: the laws of the native bit operations that the engine relies on.
use Prim.Native.Nat.{
  max, min, differ, digits, bitwise, bit_xor-bitwise, bit_and-bitwise, bit_or-bitwise,
}
use native.Mathlib.Nat.{le_refl, pow-suc, one-le-pow}
use ume.Prelude.{
  ℕ, zero, suc, ◌+◌, ◌-◌, ◌*◌, ◌/◌, ◌%◌, ◌^◌, ◌≤◌, ◌<◌, bit_xor, bit_and, bit_or, ◌≡◌, refl, sym,
  ap, ◌∙◌, arith,
}

module _ (z : ℕ → ℕ) (f : ℕ → ℕ → ℕ) where
  -- A step of fuel above the first argument changes nothing, and so do any number of them.
  one_more_digit : (n a b : ℕ) → a ≤ n → digits z f (suc n) a b ≡ digits z f n a b
  one_more_digit zero zero b h = refl
  one_more_digit (suc n) zero b h = refl
  one_more_digit zero (suc a) b h = absurd (omega arith)
  one_more_digit (suc n) (suc a) b h =
      ap (λ high. high * 2 + f (suc a % 2) (b % 2))
        (one_more_digit n (suc a / 2) (b / 2) (omega arith))

  more_digits : (extra n a b : ℕ) → a ≤ n → digits z f (extra + n) a b ≡ digits z f n a b
  more_digits zero n a b h = ap (λ fuel. digits z f fuel a b) (omega arith)
  more_digits (suc extra) n a b h =
      ap (λ fuel. digits z f fuel a b) (shift extra n)
      ∙ (one_more_digit (extra + n) a b (omega arith) ∙ more_digits extra n a b h)
    where
      shift : (extra n : ℕ) → suc extra + n ≡ suc (extra + n)
      shift extra n = omega arith

  bitwise_step :
      (a b : ℕ)
      → bitwise z f (suc a) b ≡ bitwise z f (suc a / 2) (b / 2) * 2 + f (suc a % 2) (b % 2)
  bitwise_step a b =
      ap (λ high. high * 2 + f (suc a % 2) (b % 2))
        (ap (λ fuel. digits z f fuel (suc a / 2) (b / 2)) (split a)
          ∙ more_digits (a - suc a / 2) (suc a / 2) (suc a / 2) (b / 2) (le_refl _))
    where
      split : (a : ℕ) → a ≡ a - suc a / 2 + suc a / 2
      split a = omega arith

-- On bits, `differ` is addition modulo 2.
differ_bits : (a b : ℕ) → a < 2 → b < 2 → differ a b ≡ (a + b) % 2
differ_bits (suc (suc a)) b h g = absurd (omega arith)
differ_bits (suc zero) (suc zero) h g = refl
differ_bits (suc zero) zero h g = refl
differ_bits zero (suc zero) h g = refl
differ_bits a (suc (suc b)) h g = absurd (omega arith)
differ_bits zero zero h g = refl

-- The lowest digit of each operation.
pub bit_xor_halving : (a b : ℕ) → bit_xor a b ≡ bit_xor (a / 2) (b / 2) * 2 + (a % 2 + b % 2) % 2
bit_xor_halving zero b = simp bit_xor-bitwise (omega arith)
bit_xor_halving (suc a) b = omega (
  arith,
  bit_xor-bitwise (suc a) b,
  bit_xor-bitwise (suc a / 2) (b / 2),
  bitwise_step (λ y. y) differ a b,
  differ_bits (suc a % 2) (b % 2) (omega arith) (omega arith),
)

pub bit_and_halving : (x y : ℕ) → bit_and x y ≡ bit_and (x / 2) (y / 2) * 2 + min (x % 2) (y % 2)
bit_and_halving zero y = simp bit_and-bitwise (omega arith)
bit_and_halving (suc x) y = simp bit_and-bitwise (bitwise_step (λ u. 0) min x y)

pub bit_or_halving : (x y : ℕ) → bit_or x y ≡ bit_or (x / 2) (y / 2) * 2 + max (x % 2) (y % 2)
bit_or_halving zero y = simp bit_or-bitwise (omega arith)
bit_or_halving (suc x) y = simp bit_or-bitwise (bitwise_step (λ u. u) max x y)

-- `^` is a commutative group of exponent 2.
bit_xor_comm_fuel : (n a b : ℕ) → a ≤ n → b ≤ n → bit_xor a b ≡ bit_xor b a
bit_xor_comm_fuel zero zero zero p q = refl
bit_xor_comm_fuel zero (suc a) b p q = absurd (omega arith)
bit_xor_comm_fuel zero a (suc b) p q = absurd (omega arith)
bit_xor_comm_fuel (suc n) a b p q = omega (
  arith,
  bit_xor_halving a b,
  bit_xor_halving b a,
  bit_xor_comm_fuel n (a / 2) (b / 2) (omega arith) (omega arith),
)

pub bit_xor_comm : (a b : ℕ) → bit_xor a b ≡ bit_xor b a
bit_xor_comm a b = bit_xor_comm_fuel (a + b) a b (omega arith) (omega arith)

pub zero-bit_xor : (b : ℕ) → bit_xor 0 b ≡ b
zero-bit_xor b = simp bit_xor-bitwise (omega arith)

pub bit_xor-zero : (a : ℕ) → bit_xor a 0 ≡ a
bit_xor-zero a = omega (arith, bit_xor_comm a 0, zero-bit_xor a)

pub bit_xor-half : (a b : ℕ) → bit_xor a b / 2 ≡ bit_xor (a / 2) (b / 2)
bit_xor-half a b = omega (arith, bit_xor_halving a b)

pub bit_xor-parity : (a b : ℕ) → bit_xor a b % 2 ≡ (a % 2 + b % 2) % 2
bit_xor-parity a b = omega (arith, bit_xor_halving a b)

bit_xor_self_fuel : (n a : ℕ) → a ≤ n → bit_xor a a ≡ 0
bit_xor_self_fuel zero zero p = refl
bit_xor_self_fuel zero (suc a) p = absurd (omega arith)
bit_xor_self_fuel (suc n) a p =
    omega (arith, bit_xor_halving a a, bit_xor_self_fuel n (a / 2) (omega arith))

pub bit_xor_self : (a : ℕ) → bit_xor a a ≡ 0
bit_xor_self a = bit_xor_self_fuel a a (omega arith)

bit_xor_assoc_fuel :
    (n a b c : ℕ) → a ≤ n → b ≤ n → c ≤ n → bit_xor (bit_xor a b) c ≡ bit_xor a (bit_xor b c)
bit_xor_assoc_fuel zero zero zero zero p q r = refl
bit_xor_assoc_fuel zero (suc a) b c p q r = absurd (omega arith)
bit_xor_assoc_fuel zero a (suc b) c p q r = absurd (omega arith)
bit_xor_assoc_fuel zero a b (suc c) p q r = absurd (omega arith)
bit_xor_assoc_fuel (suc n) a b c p q r =
    bit_xor_halving (bit_xor a b) c
    ∙ (rw (bit_xor-half a b, bit_xor-parity a b)
        (rw (bit_xor_assoc_fuel n (a / 2) (b / 2) (c / 2) (omega arith) (omega arith) (omega arith))
          (sym (
            bit_xor_halving a (bit_xor b c)
            ∙ (rw (bit_xor-half b c, bit_xor-parity b c) (omega arith))))))

pub bit_xor_assoc : (a b c : ℕ) → bit_xor (bit_xor a b) c ≡ bit_xor a (bit_xor b c)
bit_xor_assoc a b c = bit_xor_assoc_fuel (a + b + c) a b c (omega arith) (omega arith) (omega arith)

-- `(a ^ b) ^ (c ^ d)` with the middle two exchanged.
pub bit_xor_swap :
    (a b c d : ℕ) → bit_xor (bit_xor a b) (bit_xor c d) ≡ bit_xor (bit_xor a c) (bit_xor b d)
bit_xor_swap a b c d = cc (
  bit_xor_assoc a b (bit_xor c d),
  bit_xor_assoc b c d,
  bit_xor_comm b c,
  bit_xor_assoc c b d,
  bit_xor_assoc a c (bit_xor b d),
)

pub bit_xor-lt : (k a b : ℕ) → a < 2 ^ k → b < 2 ^ k → bit_xor a b < 2 ^ k
bit_xor-lt zero a b p q =
    omega (arith, bit_xor_halving a b, bit_xor_self 0, two_zeros a b (omega arith) (omega arith))
  where
    two_zeros : (a b : ℕ) → a ≡ 0 → b ≡ 0 → bit_xor a b ≡ 0
    two_zeros a b e f = rw (e, f)
bit_xor-lt (suc k) a b p q = omega (
  arith,
  pow-suc 2 k,
  bit_xor_halving a b,
  bit_xor-lt k (a / 2) (b / 2) (omega (arith, pow-suc 2 k)) (omega (arith, pow-suc 2 k)),
)

bit_and_zero_fuel : (n a : ℕ) → a ≤ n → bit_and a 0 ≡ 0
bit_and_zero_fuel n zero h = refl
bit_and_zero_fuel zero (suc a) h = absurd (omega arith)
bit_and_zero_fuel (suc n) (suc a) h =
    omega (arith, bit_and_halving (suc a) 0, bit_and_zero_fuel n (suc a / 2) (omega arith))

mask_fields : (k q r : ℕ) → r < 2 ^ k → bit_and (q * 2 ^ k + r) (2 ^ k - 1) ≡ r
mask_fields zero q r fits = rw (bit_and_zero_fuel (q * 1 + r) (q * 1 + r) (le_refl _)) (omega arith)
mask_fields (suc k) q r fits = omega (
  arith,
  one-le-pow k 2,
  pow-suc 2 k,
  ap (λ (t : ℕ). q * t) (pow-suc 2 k),
  bit_and_halving (q * 2 ^ suc k + r) (2 ^ suc k - 1),
  halves,
  mask_fields k q (r / 2) (omega (arith, pow-suc 2 k)),
)
  where
    low : (2 ^ suc k - 1) / 2 ≡ 2 ^ k - 1
    low = omega (arith, pow-suc 2 k, one-le-pow k 2)

    high : (q * 2 ^ suc k + r) / 2 ≡ q * 2 ^ k + r / 2
    high = omega (arith, ap (λ (t : ℕ). q * t) (pow-suc 2 k))

    halves :
        bit_and ((q * 2 ^ suc k + r) / 2) ((2 ^ suc k - 1) / 2)
        ≡ bit_and (q * 2 ^ k + r / 2) (2 ^ k - 1)
    halves = rw (low, high)

-- A mask of `k` ones is the remainder by `2 ^ k`.
pub bit_and_mask : (k a : ℕ) → bit_and a (2 ^ k - 1) ≡ a % 2 ^ k
bit_and_mask k a = ground (arith, one-le-pow k 2, mask_fields k (a / 2 ^ k) (a % 2 ^ k))

-- `^` of fields that do not overlap is a sum.
pub bit_xor_fields : (k q r : ℕ) → r < 2 ^ k → bit_xor (q * 2 ^ k) r ≡ q * 2 ^ k + r
bit_xor_fields zero q r fits = bit_xor_nothing (q * 1) r (omega arith)
  where
    bit_xor_nothing : (a b : ℕ) → b ≡ 0 → bit_xor a b ≡ a + b
    bit_xor_nothing a b e = rw e (omega (arith, bit_xor-zero a))
bit_xor_fields (suc k) q r fits = omega (
  arith,
  pow-suc 2 k,
  double,
  bit_xor_halving (q * 2 ^ suc k) r,
  half,
  bit_xor_fields k q (r / 2) (omega (arith, pow-suc 2 k)),
)
  where
    double : q * 2 ^ suc k ≡ 2 * (q * 2 ^ k)
    double = omega (arith, ap (λ (t : ℕ). q * t) (pow-suc 2 k))

    half : bit_xor (q * 2 ^ suc k / 2) (r / 2) ≡ bit_xor (q * 2 ^ k) (r / 2)
    half = ap (λ t. bit_xor t (r / 2)) (omega (arith, double))
