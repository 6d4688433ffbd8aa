-- ===== src/Crc/Tests.antt =====
-- The checksum of the message "123456789", and of a single byte.
use ume.Prelude.{◌≢◌, ◌<◌, ℕ, ◌≡◌, List, [], ◌∷◌, arith}
use ume.Crc.{compute_crc32}
use ume.Crc.Reference.{IsBytes, reference_crc32, compute_crc32-reference}

abbrev digits : List ℕ
digits = 0x31 ∷ 0x32 ∷ 0x33 ∷ 0x34 ∷ 0x35 ∷ 0x36 ∷ 0x37 ∷ 0x38 ∷ 0x39 ∷ []

digits-IsBytes : IsBytes digits
digits-IsBytes = (
  omega arith,
  (
    omega arith,
    (
      omega arith,
      (omega arith, (omega arith, (omega arith, (omega arith, (omega arith, (omega arith, tt)))))),
    ),
  ),
)

compute_crc32-reference_example :
    (compute_crc32 digits ≡ reference_crc32 0xED888320 digits)
    × ((b : ℕ)
        → b < 255
        → digits ≡ b ∷ []
        → compute_crc32 digits ≢ reference_crc32 0xEDB88320 digits)
compute_crc32-reference_example = compute_crc32-reference digits digits-IsBytes
