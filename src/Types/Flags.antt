-- ===== src/Types/Flags.antt =====
-- `EventFlags` of core/include/ume/event/event_types.h.
use ume.Prelude.{ℕ, ◌^◌, ◌-◌, ◌%◌, bit_or, bit_and, Bool, ◌==◌}

abbrev pub none : ℕ
none = 0

abbrev pub synchronous : ℕ
synchronous = 2 ^ 0

abbrev pub journaled : ℕ
journaled = 2 ^ 1

abbrev pub replayed : ℕ
replayed = 2 ^ 2

abbrev pub compressed : ℕ
compressed = 2 ^ 3

abbrev pub synthetic : ℕ
synthetic = 2 ^ 4

-- `operator|`, `operator&`, `operator~` (of 32 bits) and `has_flag`.
abbrev pub or_flags : ℕ → ℕ → ℕ
or_flags a b = bit_or a b

abbrev pub and_flags : ℕ → ℕ → ℕ
and_flags a b = bit_and a b

abbrev pub not_flags : ℕ → ℕ
not_flags a = 2 ^ 32 - 1 - a % 2 ^ 32

abbrev pub has_flag : ℕ → ℕ → Bool
has_flag flags flag = and_flags flags flag == flag
