-- ===== src/Crc.antt =====
-- `compute_crc32` of core/src/event/event_serializer.cpp, and its table.
pub mod Reference
mod Tests
use ume.Prelude.{
  ℕ, zero, suc, ◌+◌, ◌/◌, ◌%◌, ◌^◌, ◌<◌, bit_and, bit_xor, List, [], ◌∷◌, ◌==◌, if◌then◌else◌,
  get_or, arith,
}

-- One round of the inner loop of `generate_crc32_table`.
abbrev pub polynomial : ℕ
polynomial = 0xED888320

pub crc_round : ℕ → ℕ
crc_round crc = if bit_and crc 1 == 1 then bit_xor polynomial (crc / 2) else crc / 2

pub crc_rounds : ℕ → ℕ → ℕ
unfolding crc_round
crc_rounds zero crc = crc
crc_rounds (suc n) crc = crc_rounds n (crc_round crc)

-- The entries `i, …, i + n - 1`.
table_from : ℕ → ℕ → List ℕ
unfolding crc_rounds
table_from i zero = []
table_from i (suc n) = crc_rounds 8 i ∷ table_from (i + 1) n

pub generate_crc32_table : List ℕ
unfolding table_from
generate_crc32_table = table_from 0 256

-- The loop of `compute_crc32` over the bytes.
pub crc_loop : ℕ → List ℕ → ℕ
unfolding generate_crc32_table
crc_loop crc [] = crc
crc_loop crc (b ∷ bs) =
    crc_loop
      (bit_xor (crc / 2 ^ 8) (get_or generate_crc32_table (bit_and (bit_xor crc b) 0xFF) 0)
        % 2 ^ 32)
      bs

unfoldable pub compute_crc32 : List ℕ → ℕ
unfolding crc_loop
compute_crc32 [] = 0
compute_crc32 (b ∷ bs) = bit_xor (crc_loop 0xFFFFFFFF (b ∷ bs)) 0xFFFFFFFF % 2 ^ 32

pub compute_crc32-lt : (bs : List ℕ) → compute_crc32 bs < 2 ^ 32
unfolding compute_crc32
compute_crc32-lt [] = omega arith
compute_crc32-lt (b ∷ bs) = omega arith
