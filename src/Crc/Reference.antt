-- ===== src/Crc/Reference.antt =====
-- The table-driven loop of `compute_crc32` against the bitwise shift register that the table stands
-- for.
use native.Mathlib.Nat.{mod-eq_of_lt, pow-suc}
use ume.Prelude.{
  subst, ℕ, zero, suc, ◌+◌, ◌*◌, ◌/◌, ◌%◌, ◌^◌, ◌<◌, ◌≡◌, refl, sym, ap, ◌∙◌, bit_and, bit_xor,
  Bool, true, not, ◌≢◌, List, [], ◌∷◌, ◌==◌, if◌then◌else◌, get_or, arith,
}
use ume.Bits.{
  bit_xor_comm, bit_xor_assoc, bit_xor_swap, bit_xor_self, zero-bit_xor, bit_xor-zero, bit_xor-half,
  bit_xor-parity, bit_xor-lt, bit_xor_fields, bit_and_mask,
}
use ume.Crc.{
  polynomial, crc_round, crc_rounds, table_from, generate_crc32_table, crc_loop, compute_crc32,
}

-- What the bit shifted out feeds back.
abbrev pub tap : ℕ → ℕ → ℕ
tap poly bit = if bit == 1 then poly else 0

-- A shift register that takes the message a byte at a time and divides by the polynomial.
module _ (poly : ℕ) where
  abbrev pub shift : ℕ → ℕ
  shift crc = bit_xor (crc / 2) (tap poly (crc % 2))

  pub shifts : ℕ → ℕ → ℕ
  shifts zero crc = crc
  shifts (suc n) crc = shifts n (shift crc)

  pub register : ℕ → List ℕ → ℕ
  unfolding shifts
  register crc [] = crc
  register crc (b ∷ bs) = register (shifts 8 (bit_xor crc b)) bs

  unfoldable pub reference_crc32 : List ℕ → ℕ
  unfolding register
  reference_crc32 [] = 0
  reference_crc32 (b ∷ bs) = bit_xor (register 0xFFFFFFFF (b ∷ bs)) 0xFFFFFFFF

-- The bytes of a message.
abbrev pub IsBytes : List ℕ → Type 0
IsBytes [] = Unit {0}
IsBytes (b ∷ bs) = (b < 256) × IsBytes bs

crc_round-shift : (crc : ℕ) → crc_round crc ≡ shift polynomial crc
unfolding crc_round
crc_round-shift crc =
    ground (arith, bit_and_mask 1 crc, bit_xor_comm polynomial (crc / 2), bit_xor-zero (crc / 2))

crc_rounds-shifts : (n crc : ℕ) → crc_rounds n crc ≡ shifts polynomial n crc
unfolding crc_rounds shifts
crc_rounds-shifts zero crc = refl
crc_rounds-shifts (suc n) crc =
    crc_rounds-shifts n (crc_round crc) ∙ ap (shifts polynomial n) (crc_round-shift crc)

tap_sum :
    (poly a b : ℕ) → a < 2 → b < 2 → tap poly ((a + b) % 2) ≡ bit_xor (tap poly a) (tap poly b)
tap_sum poly zero zero p q = refl
tap_sum poly zero (suc zero) p q = sym (zero-bit_xor poly)
tap_sum poly (suc zero) zero p q = sym (bit_xor-zero poly)
tap_sum poly (suc zero) (suc zero) p q = sym (bit_xor_self poly)
tap_sum poly (suc (suc a)) b p q = absurd (omega arith)
tap_sum poly a (suc (suc b)) p q = absurd (omega arith)

-- The register is linear.
shift-bit_xor :
    (a b : ℕ) → shift polynomial (bit_xor a b) ≡ bit_xor (shift polynomial a) (shift polynomial b)
shift-bit_xor a b =
    rw (bit_xor-half a b, bit_xor-parity a b)
      (rw (tap_sum polynomial (a % 2) (b % 2) (omega arith) (omega arith))
        (bit_xor_swap (a / 2) (b / 2) (tap polynomial (a % 2)) (tap polynomial (b % 2))))

shifts-bit_xor :
    (n a b : ℕ)
    → shifts polynomial n (bit_xor a b) ≡ bit_xor (shifts polynomial n a) (shifts polynomial n b)
unfolding shifts
shifts-bit_xor zero a b = refl
shifts-bit_xor (suc n) a b =
    ap (shifts polynomial n) (shift-bit_xor a b)
    ∙ shifts-bit_xor n (shift polynomial a) (shift polynomial b)

-- The register moves the high bits down unchanged.
shifts_high : (n q : ℕ) → shifts polynomial n (q * 2 ^ n) ≡ q
unfolding shifts
shifts_high zero q = omega arith
shifts_high (suc n) q = ap (shifts polynomial n) step ∙ shifts_high n q
  where
    double : q * 2 ^ suc n ≡ 2 * (q * 2 ^ n)
    double = omega (arith, ap (λ (t : ℕ). q * t) (pow-suc 2 n))

    step : shift polynomial (q * 2 ^ suc n) ≡ q * 2 ^ n
    step = rw double (ground (arith, bit_xor-zero (q * 2 ^ n)))

table_from-entry : (n i k : ℕ) → k < n → get_or (table_from i n) k 0 ≡ crc_rounds 8 (i + k)
unfolding table_from
table_from-entry zero i k h = absurd (omega arith)
table_from-entry (suc n) i zero h = ap (crc_rounds 8) (omega arith)
table_from-entry (suc n) i (suc k) h =
    table_from-entry n (i + 1) k (omega arith) ∙ ap (crc_rounds 8) (omega arith)

-- One step of the loop is eight shifts.
table_step :
    (x : ℕ)
    → bit_xor (x / 2 ^ 8) (get_or generate_crc32_table (bit_and x 0xFF) 0) ≡ shifts polynomial 8 x
unfolding generate_crc32_table
table_step x =
    ap (λ t. bit_xor (x / 2 ^ 8) (get_or (table_from 0 256) t 0)) (bit_and_mask 8 x)
    ∙ (ap (bit_xor (x / 2 ^ 8)) (table_from-entry 256 0 (x % 2 ^ 8) (omega arith) ∙ entry)
        ∙ sym whole)
  where
    entry : crc_rounds 8 (0 + x % 2 ^ 8) ≡ shifts polynomial 8 (x % 2 ^ 8)
    entry = crc_rounds-shifts 8 (0 + x % 2 ^ 8) ∙ ap (shifts polynomial 8) (omega arith)

    split : x ≡ bit_xor (x / 2 ^ 8 * 2 ^ 8) (x % 2 ^ 8)
    split = omega (arith, bit_xor_fields 8 (x / 2 ^ 8) (x % 2 ^ 8) (omega arith))

    whole : shifts polynomial 8 x ≡ bit_xor (x / 2 ^ 8) (shifts polynomial 8 (x % 2 ^ 8))
    whole =
        ap (shifts polynomial 8) split
        ∙ (shifts-bit_xor 8 (x / 2 ^ 8 * 2 ^ 8) (x % 2 ^ 8)
            ∙ ap (λ t. bit_xor t (shifts polynomial 8 (x % 2 ^ 8))) (shifts_high 8 (x / 2 ^ 8)))

-- A byte does not reach the bits above it.
above_byte : (crc b : ℕ) → b < 256 → bit_xor crc b / 2 ^ 8 ≡ crc / 2 ^ 8
above_byte crc b h = omega (
  arith,
  ap (λ t. bit_xor t b) split,
  bit_xor_assoc (crc / 2 ^ 8 * 2 ^ 8) (crc % 2 ^ 8) b,
  bit_xor-lt 8 (crc % 2 ^ 8) b (omega arith) h,
  bit_xor_fields 8 (crc / 2 ^ 8) (bit_xor (crc % 2 ^ 8) b)
      (bit_xor-lt 8 (crc % 2 ^ 8) b (omega arith) h),
)
  where
    split : crc ≡ bit_xor (crc / 2 ^ 8 * 2 ^ 8) (crc % 2 ^ 8)
    split = omega (arith, bit_xor_fields 8 (crc / 2 ^ 8) (crc % 2 ^ 8) (omega arith))

tap-lt : (bit : ℕ) → tap polynomial bit < 2 ^ 32
tap-lt bit = ground arith

shifts-lt : (n x : ℕ) → x < 2 ^ 32 → shifts polynomial n x < 2 ^ 32
unfolding shifts
shifts-lt zero x h = h
shifts-lt (suc n) x h =
    shifts-lt n (shift polynomial x)
      (bit_xor-lt 32 (x / 2) (tap polynomial (x % 2)) (omega arith) (tap-lt (x % 2)))

loop_step :
    (crc b : ℕ)
    → crc < 2 ^ 32
    → b < 256
    → bit_xor (crc / 2 ^ 8) (get_or generate_crc32_table (bit_and (bit_xor crc b) 0xFF) 0) % 2 ^ 32
      ≡ shifts polynomial 8 (bit_xor crc b)
loop_step crc b hc hb =
    ap (λ t. bit_xor t (get_or generate_crc32_table (bit_and (bit_xor crc b) 0xFF) 0) % 2 ^ 32)
      (sym (above_byte crc b hb))
    ∙ (ap (λ t. t % 2 ^ 32) (table_step (bit_xor crc b))
        ∙ mod-eq_of_lt (shifts-lt 8 (bit_xor crc b) (bit_xor-lt 32 crc b hc (omega arith))))

crc_loop-register :
    (crc : ℕ) (bs : List ℕ)
    → crc < 2 ^ 32
    → IsBytes bs
    → (crc_loop crc bs ≡ register polynomial crc bs) × (crc_loop crc bs < 2 ^ 32)
unfolding crc_loop register
crc_loop-register crc [] hc h = (refl, hc)
crc_loop-register crc (b ∷ bs) hc (hb, h) = rw (loop_step crc b hc hb) (
    crc_loop-register (shifts polynomial 8 (bit_xor crc b)) bs
      (shifts-lt 8 (bit_xor crc b) (bit_xor-lt 32 crc b hc (omega arith))) h)

abbrev ieee_polynomial : ℕ
ieee_polynomial = 0xEDB88320

-- The bytes below a bound that a test misses.
count_missed : ℕ → (ℕ → Bool) → ℕ
count_missed zero test = 0
count_missed (suc bound) test = (if test bound then 0 else 1) + count_missed bound test

passes :
    (bound : ℕ) (test : ℕ → Bool) (b : ℕ) → b < bound → count_missed bound test ≡ 0 → test b ≡ true
unfolding count_missed
passes zero test b below none_missed = absurd (omega arith)
passes (suc bound) test b below none_missed = ground (arith, passes bound test b)

abbrev differs_at : ℕ → Bool
differs_at b = not (compute_crc32 (b ∷ []) == reference_crc32 ieee_polynomial (b ∷ []))

differs_below : count_missed 255 differs_at ≡ 0
unfolding count_missed compute_crc32 reference_crc32
differs_below = refl

-- On a message of one byte below 255 the code does not compute the checksum of IEEE 802.3.
compute_crc32-ne-ieee :
    (b : ℕ) → b < 255 → compute_crc32 (b ∷ []) ≢ reference_crc32 0xEDB88320 (b ∷ [])
compute_crc32-ne-ieee b h e = ground (arith, passes 255 differs_at b h differs_below)

same_crc : (bs : List ℕ) → IsBytes bs → compute_crc32 bs ≡ reference_crc32 0xED888320 bs
unfolding compute_crc32 reference_crc32
same_crc [] h = refl
same_crc (b ∷ bs) h =
    let (same, fits) = crc_loop-register 0xFFFFFFFF (b ∷ bs) (omega arith) h in
    mod-eq_of_lt (bit_xor-lt 32 (crc_loop 0xFFFFFFFF (b ∷ bs)) 0xFFFFFFFF fits (omega arith))
    ∙ ap (λ t. bit_xor t 0xFFFFFFFF) same

-- On every message of bytes the table-driven `compute_crc32` is the bitwise CRC with reflected
-- input and output, initial value and final exclusive-or 0xFFFFFFFF, and the polynomial 0xED888320.
-- That is not the CRC-32 of IEEE 802.3, whose polynomial is 0xEDB88320, which the comments name: on
-- every message of one byte below 255 the two differ.
pub compute_crc32-reference :
    (bs : List ℕ)
    → IsBytes bs
    → (compute_crc32 bs ≡ reference_crc32 0xED888320 bs)
      × ((b : ℕ) → b < 255 → bs ≡ b ∷ [] → compute_crc32 bs ≢ reference_crc32 0xEDB88320 bs)
compute_crc32-reference bs h = (
  same_crc bs h,
  λ b small one.
      subst (λ ms. compute_crc32 ms ≢ reference_crc32 0xEDB88320 ms) (sym one)
        (compute_crc32-ne-ieee b small),
)
