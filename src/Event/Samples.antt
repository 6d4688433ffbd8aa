-- ===== src/Event/Samples.antt =====
-- Events for the tests: an object that is created and destroyed, and a migration.
use ume.Prelude.{refl, arith, replicate}
use ume.Event.{Event, create_object_event, create_migration_event, IsEvent}
use ume.Event.Factories.{create_object_event-IsEvent, create_migration_event-IsEvent}
use ume.Types.EventType
use ume.Types.Tier
use ume.Serializer.Laws.{IsAcceptable}

abbrev pub created : Event
created = create_object_event (replicate 32 0) 1 100 EventType.object_created 7 Tier.ram 4096

abbrev pub destroyed : Event
destroyed = create_object_event (replicate 32 0) 3 300 EventType.object_destroyed 7 Tier.ram 4096

abbrev pub migrated : Event
migrated =
    create_migration_event (replicate 32 0) 2 200 EventType.migration_completed 7 Tier.ram Tier.vram
      4096

pub created-valid : IsEvent created × IsAcceptable created
created-valid =
    create_object_event-IsEvent (replicate 32 0) 1 100 EventType.object_created 7 Tier.ram 4096 refl
      (omega arith) (omega arith) (omega arith) (omega arith) (omega arith)

pub migrated-valid : IsEvent migrated × IsAcceptable migrated
migrated-valid =
    create_migration_event-IsEvent (replicate 32 0) 2 200 EventType.migration_completed 7 Tier.ram
      Tier.vram 4096 refl (omega arith) (omega arith) (omega arith) (omega arith) (omega arith)
      (omega arith)

-- A creation with a payload size that `validate` rejects.
abbrev pub oversized : Event
oversized = record created { header = record (created.header) { payload_size = 65 } }

pub oversized-IsEvent : IsEvent oversized
oversized-IsEvent =
    let h = created-valid.0.header in
    record {
      header = record {
        id = h.id;
        timestamp = h.timestamp;
        object_id = h.object_id;
        type = h.type;
        category = h.category;
        priority = h.priority;
        flags = h.flags;
        source_tier = h.source_tier;
        target_tier = h.target_tier;
        payload_size = omega arith;
        sequence_num = h.sequence_num;
        reserved = h.reserved;
      };
      payload = created-valid.0.payload;
    }
