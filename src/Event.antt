-- ===== src/Event.antt =====
-- core/include/ume/event/event.h: the event header, the payloads and the factories. An enumeration
-- with a fixed underlying type holds any value of that type once it is read from a buffer, so its
-- values are numbers, named in `Types`.
pub mod Codec
pub mod Factories
pub mod Samples
use ume.Prelude.{ℕ, ◌*◌, ◌^◌, ◌<◌, ◌≡◌, List, [], ◌∷◌, ◌++◌, length, replicate, drop}
use ume.Bytes.{to_le, field}
use ume.Types.Tier
use ume.Types.Category
use ume.Types.Priority
use ume.Types.Flags

pub record EventHeader : Type 0 where
  pub id : ℕ
  pub timestamp : ℕ
  pub object_id : ℕ
  pub type : ℕ
  pub category : ℕ
  pub priority : ℕ
  pub flags : ℕ
  pub source_tier : ℕ
  pub target_tier : ℕ
  pub payload_size : ℕ
  pub sequence_num : ℕ
  pub reserved : List ℕ

-- The payload is the 64 bytes of the union.
pub record Event : Type 0 where
  pub header : EventHeader
  pub payload : List ℕ

-- The default member initialisers.
abbrev pub empty_header : EventHeader
empty_header = record {
  id = 0;
  timestamp = 0;
  object_id = 0;
  type = 0;
  category = Category.unknown;
  priority = Priority.normal;
  flags = Flags.none;
  source_tier = 0xFFFF;
  target_tier = 0xFFFF;
  payload_size = 0;
  sequence_num = 0;
  reserved = replicate 20 0;
}

abbrev pub empty_event : Event
empty_event = record { header = empty_header; payload = replicate 64 0 }

-- The members of the union that the engine reads: `object.size_bytes`, `object.preferred_tier`.
abbrev pub object_size_bytes : Event → ℕ
object_size_bytes e = field 0 8 e.payload

abbrev pub object_preferred_tier : Event → ℕ
object_preferred_tier e = field 12 1 e.payload

-- The bytes of an `ObjectEventPayload`, and of a `MigrationEventPayload`.
abbrev pub object_payload : ℕ → ℕ → ℕ → List ℕ
object_payload size_bytes alignment tier =
    to_le 8 size_bytes ++ (to_le 4 alignment ++ (to_le 1 tier ++ replicate 19 0))

abbrev pub migration_payload : ℕ → ℕ → ℕ → List ℕ
migration_payload bytes duration status =
    to_le 8 bytes ++ (to_le 8 duration ++ (to_le 4 status ++ replicate 12 0))

-- The union keeps 64 bytes, of which its constructor sets the first 32: the others are `rest`.
unfoldable pub create_object_event : List ℕ → ℕ → ℕ → ℕ → ℕ → ℕ → ℕ → Event
create_object_event rest id ts type obj_id tier size = record {
  header = record empty_header {
    id = id;
    timestamp = ts;
    type = type;
    category = Category.memory_object;
    priority = Priority.normal;
    flags = Flags.journaled;
    object_id = obj_id;
    source_tier = tier;
    payload_size = 32;
  };
  payload = object_payload size 0 Tier.ram ++ rest;
}

unfoldable pub create_migration_event : List ℕ → ℕ → ℕ → ℕ → ℕ → ℕ → ℕ → ℕ → Event
create_migration_event rest id ts type obj_id src tgt bytes = record {
  header = record empty_header {
    id = id;
    timestamp = ts;
    type = type;
    category = Category.tier_migration;
    priority = Priority.high;
    flags = Flags.journaled;
    object_id = obj_id;
    source_tier = src;
    target_tier = tgt;
    payload_size = 32;
  };
  payload = migration_payload bytes 0 0 ++ rest;
}

-- The field widths of the layout.
pub record IsHeader (h : EventHeader) : Type 0 where
  pub id : h.id < 256 ^ 8
  pub timestamp : h.timestamp < 256 ^ 8
  pub object_id : h.object_id < 256 ^ 8
  pub type : h.type < 256 ^ 2
  pub category : h.category < 256 ^ 1
  pub priority : h.priority < 256 ^ 1
  pub flags : h.flags < 256 ^ 4
  pub source_tier : h.source_tier < 256 ^ 2
  pub target_tier : h.target_tier < 256 ^ 2
  pub payload_size : h.payload_size < 256 ^ 4
  pub sequence_num : h.sequence_num < 256 ^ 4
  pub reserved : length h.reserved ≡ 20

pub record IsEvent (e : Event) : Type 0 where
  pub header : IsHeader e.header
  pub payload : length e.payload ≡ 64
