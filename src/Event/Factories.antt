-- ===== src/Event/Factories.antt =====
-- The events that the factories of core/include/ume/event/event.h make.
use ume.Prelude.{ℕ, ◌^◌, ◌<◌, ◌≡◌, refl, List, ◌++◌, arith, length, replicate, length-append}
use ume.Bytes.{length-to_le, to_le}
use ume.Event.{
  create_object_event, create_migration_event, object_payload, migration_payload, IsEvent,
}
use ume.Serializer.{validate_header}
use ume.Serializer.Laws.{IsAcceptable}

-- `create_object_event` with arguments of their types' widths makes an event of the layout's
-- widths, which `validate` accepts.
pub create_object_event-IsEvent :
    (rest : List ℕ) (id ts type obj_id tier size : ℕ)
    → length rest ≡ 32
    → id < 256 ^ 8
    → ts < 256 ^ 8
    → type < 256 ^ 2
    → obj_id < 256 ^ 8
    → tier < 256 ^ 2
    → IsEvent (create_object_event rest id ts type obj_id tier size)
      × IsAcceptable (create_object_event rest id ts type obj_id tier size)
unfolding create_object_event validate_header
create_object_event-IsEvent rest id ts type obj_id tier size r a b c d e = (
  record {
    header = record {
      id = a;
      timestamp = b;
      object_id = d;
      type = c;
      category = omega arith;
      priority = omega arith;
      flags = omega arith;
      source_tier = omega arith;
      target_tier = omega arith;
      payload_size = omega arith;
      sequence_num = omega arith;
      reserved = refl;
    };
    payload = omega (
      arith,
      r,
      length-append (object_payload size 0 1) rest,
      length-append (to_le 8 size) (to_le 4 0 ++ (to_le 1 1 ++ replicate 19 0)),
      length-append (to_le 4 0) (to_le 1 1 ++ replicate 19 0),
      length-append (to_le 1 1) (replicate 19 0),
      length-to_le 8 size,
      length-to_le 4 0,
      length-to_le 1 1,
    );
  },
  refl,
)

-- The same of `create_migration_event`.
pub create_migration_event-IsEvent :
    (rest : List ℕ) (id ts type obj_id src tgt bytes : ℕ)
    → length rest ≡ 32
    → id < 256 ^ 8
    → ts < 256 ^ 8
    → type < 256 ^ 2
    → obj_id < 256 ^ 8
    → src < 256 ^ 2
    → tgt < 256 ^ 2
    → IsEvent (create_migration_event rest id ts type obj_id src tgt bytes)
      × IsAcceptable (create_migration_event rest id ts type obj_id src tgt bytes)
unfolding create_migration_event validate_header
create_migration_event-IsEvent rest id ts type obj_id src tgt bytes r a b c d e f = (
  record {
    header = record {
      id = a;
      timestamp = b;
      object_id = d;
      type = c;
      category = omega arith;
      priority = omega arith;
      flags = omega arith;
      source_tier = omega arith;
      target_tier = omega arith;
      payload_size = omega arith;
      sequence_num = omega arith;
      reserved = refl;
    };
    payload = omega (
      arith,
      r,
      length-append (migration_payload bytes 0 0) rest,
      length-append (to_le 8 bytes) (to_le 8 0 ++ (to_le 4 0 ++ replicate 12 0)),
      length-append (to_le 8 0) (to_le 4 0 ++ replicate 12 0),
      length-append (to_le 4 0) (replicate 12 0),
      length-to_le 8 bytes,
      length-to_le 8 0,
      length-to_le 4 0,
    );
  },
  refl,
)
