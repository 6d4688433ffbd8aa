-- ===== src/Types.antt =====
-- core/include/ume/types.h and core/include/ume/event/event_types.h: the enumerators, by number.
pub mod Tier
pub mod Category
pub mod EventType
pub mod Priority
pub mod Flags
