-- ===== src/Types/Priority.antt =====
-- `EventPriority` of core/include/ume/event/event_types.h.
use ume.Prelude.{ℕ}

abbrev pub low : ℕ
low = 0

abbrev pub normal : ℕ
normal = 1

abbrev pub high : ℕ
high = 2

abbrev pub critical : ℕ
critical = 3
