-- ===== src/Replay/Damage/Tests.antt =====
-- A directory of one segment whose second record is damaged.
use ume.Prelude.{◌^◌, ◌≡◌, refl, ◌∙◌, false, true, some, List, [], ◌∷◌, ◌==◌, arith}
use ume.Event.{create_object_event, create_migration_event}
use ume.Event.Samples.{created, created-valid, migrated, migrated-valid}
use ume.Event.Codec.{encode}
use ume.Serializer.{validate_header}
use ume.Crc.{compute_crc32}
use ume.Dispatcher.{Dispatcher}
use ume.Journal.File.{File, read_bytes, write_bytes, read-write_before, byte-write_after}
use ume.Journal.Format.{encode_record_header, encode_segment_header}
use ume.Journal.Disk.{Os, Disk, all_succeed}
use ume.Journal.Contents.{
  Segment, write_entry, Segment-write_entry, Segment-fresh, check_segment-congr,
}
use ume.Journal.Append.{first_segment, fresh_file}
use ume.Journal.Drain.{Slot, Slots, Follows}
use ume.Journal.Reader.{check_segment}
use ume.Journal.Paths.{sort_paths}
use ume.Replay.{replay_directory}
use ume.Replay.Loop.{dispatch_all}
use ume.Replay.Damage.{Replays, replay_directory-Damaged}

abbrev sound_file : File
sound_file = write_entry (write_entry (first_segment 5 (2 ^ 20)) 64 1 created) 224 2 migrated

sound_file-Segment : Segment (2 ^ 20) sound_file ((1, created) ∷ (2, migrated) ∷ [])
sound_file-Segment =
    Segment-write_entry ((1, created) ∷ []) 2 migrated migrated-valid.0
      (Segment-write_entry [] 1 created created-valid.0
        (Segment-fresh (2 ^ 20) 0 5 (fresh_file (2 ^ 20)) (omega arith) refl (λ i h. ground arith))
        (omega arith))
      (omega arith)

-- A byte of the second payload was overwritten.
abbrev damaged_file : File
damaged_file = write_bytes sound_file 320 (9 ∷ [])

damage_shows :
    (compute_crc32 (read_bytes damaged_file 256 128) == compute_crc32 (encode migrated)) ≡ false
unfolding compute_crc32 read_bytes write_bytes encode create_migration_event create_object_event
    encode_record_header encode_segment_header
damage_shows = refl

abbrev records : List Slot
records = ((1, created), false) ∷ ((2, migrated), true) ∷ []

abbrev no_subscribers : Dispatcher
no_subscribers = record { subscribers = []; token_counter = 0 }

abbrev os : Os
os i = all_succeed

abbrev disk : Disk
disk = (0, damaged_file) ∷ []

damaged_file-Slots : Slots damaged_file 64 records
damaged_file-Slots =
    let ((head, payload), ((head', _), blank)) = sound_file-Segment.records in
    (
      (
        read-write_before sound_file 320 (9 ∷ []) 64 32 (omega arith) ∙ head,
        read-write_before sound_file 320 (9 ∷ []) 96 128 (omega arith) ∙ payload,
      ),
      (
        (read-write_before sound_file 320 (9 ∷ []) 224 32 (omega arith) ∙ head', damage_shows),
        λ i h. byte-write_after sound_file 320 (9 ∷ []) i (omega arith) ∙ blank i h,
      ),
    )

damaged_file_sound : check_segment damaged_file ≡ true
damaged_file_sound =
    check_segment-congr damaged_file sound_file (unfold write_bytes in refl)
      (read-write_before sound_file 320 (9 ∷ []) 0 64 (omega arith))
    ∙ sound_file-Segment.sound

disk-Follows : Follows os disk (0 ∷ []) 0 (records ∷ [])
disk-Follows = (
  record {
    id = 0;
    file = damaged_file;
    path = refl;
    found = refl;
    good = refl;
    small = unfold write_bytes in omega arith;
    sound = damaged_file_sound;
    records = damaged_file-Slots;
    room = unfold write_bytes in omega arith;
    widths = (created-valid.0, (migrated-valid.0, tt));
  },
  refl,
)

replay_directory-Damaged_example :
    Replays
      (replay_directory 3 3 os disk no_subscribers (some (0 ∷ [])))
      1
      1
      (dispatch_all (created ∷ []) no_subscribers)
unfolding validate_header create_object_event create_migration_event
replay_directory-Damaged_example =
    replay_directory-Damaged os disk (0 ∷ []) 0 [] records [] no_subscribers 3 3
      (unfold sort_paths in refl) disk-Follows (omega arith) (omega arith) (omega arith)
