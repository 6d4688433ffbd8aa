-- ===== src/Journal/Drain/Rounds.antt =====
-- A round of the reader of core/src/event/journal_reader.cpp on a sound segment.
use ume.Prelude.{
  ℕ, false, ◌==◌, Bool, refl, ◌+◌, ◌^◌, ◌≤◌, ◌<◌, ◌≡◌, sym, ap, ◌∙◌, ◌≢◌, true, some, List, [], ◌∷◌,
  arith, le→ltb, ==_refl, Bool-cases, inl, inr, if◌then◌else◌, add64, get_elem?, take, lookup,
}
use ume.Status.{ok, k_ok}
use ume.Crc.{compute_crc32}
use ume.Event.{Event, IsEvent}
use ume.Event.Codec.{encode}
use ume.Journal.Drain.Kept.{Found, is_kept, accepts, deserialize-accepted, deserialize-rejected}
use ume.Journal.File.{File, read_bytes, take-read, Blank, read-Blank}
use ume.Journal.Format.{
  record_size_of, payload_crc32_of, encode_record_header, encode_record_header-fields,
  IsRecordHeader,
}
use ume.Journal.Disk.{Os, Disk, all_succeed, open_read_only, mapped_file}
use ume.Journal.Reader.{
  Reader, check_segment, enter_segment, load_current_segment, Round, returns, continues,
  next_segment, read_payload, read_record, read_round,
}
use ume.Journal.Contents.{Entry}

-- A record in a file, and whether its bytes were damaged behind the header.
abbrev pub Slot : Type 0
Slot = Entry × Bool

-- The damage shows in the checksum.
abbrev pub Payload : Bool → File → ℕ → Event → Type 0
Payload false f off e = read_bytes f (off + 32) 128 ≡ encode e
Payload true f off e =
    (compute_crc32 (read_bytes f (off + 32) 128) == compute_crc32 (encode e)) ≡ false

abbrev pub InSlot : File → ℕ → Slot → Type 0
InSlot f off ((seq, e), damaged) =
    (read_bytes f off 32 ≡ encode_record_header seq e) × Payload damaged f off e

-- Records one after the other, then zeros.
abbrev pub Slots : File → ℕ → List Slot → Type 0
Slots f off [] = Blank f off
Slots f off (x ∷ xs) = InSlot f off x × Slots f (off + 160) xs

-- Every event has its widths.
abbrev pub AllEvents : List Slot → Type 0
AllEvents [] = Unit {0}
AllEvents (((seq, e), damaged) ∷ xs) = IsEvent e × AllEvents xs

-- Behind a record that is read.
abbrev pub past : Reader → Reader
past r = record r {
  current_offset = add64 r.current_offset 160;
  stats = record (r.stats) {
    records_read = add64 r.stats.records_read 1;
    bytes_read = add64 r.stats.bytes_read 160;
  };
}

-- Behind a record that is skipped.
abbrev pub past_rejected : Reader → Reader
past_rejected r = record r {
  current_offset = add64 r.current_offset 160;
  stats = record (r.stats) {
    corrupted_records_skipped = add64 r.stats.corrupted_records_skipped 1;
  };
}

-- What a round makes of a record with the event.
abbrev pub round_of : Found → Reader → Round
round_of (e, damaged) r =
    if is_kept (e, damaged) then returns (ok e) (past r) else continues (past_rejected r)

-- A payload that is sound, and one that is damaged.
pub read_payload_slot :
    (f : File) (r : Reader) (e : Event) (damaged : Bool) (header : List ℕ)
    → IsEvent e
    → record_size_of header ≡ 160
    → payload_crc32_of header ≡ compute_crc32 (encode e)
    → Payload damaged f r.current_offset e
    → read_payload f header r ≡ round_of (e, damaged) r
unfolding read_payload
read_payload_slot f r e false header v size crc payload = elim (Bool-cases (accepts e)) [
  | inl good ↦ simp (payload, crc, ==_refl, deserialize-accepted e v good, size, good) refl
  | inr bad ↦
      let (s, refused) = deserialize-rejected e v bad in
      simp (payload, crc, ==_refl, refused, size, bad) refl
]
read_payload_slot f r e true header v size crc payload = elim (Bool-cases (accepts e)) [
  | inl good ↦ simp (crc, payload, size, good) refl
  | inr bad ↦ simp (crc, payload, size, bad) refl
]

pub read_record_slot :
    (os : Os) (disk : Disk) (r : Reader) (f : File) (e : Event) (damaged : Bool) (header : List ℕ)
    → IsEvent e
    → IsRecordHeader header e
    → take 20 header ≡ read_bytes f r.current_offset 20
    → Payload damaged f r.current_offset e
    → r.current_offset + 160 ≤ f.size
    → f.size < 2 ^ 63
    → read_record os disk r f header ≡ round_of (e, damaged) r
unfolding read_record
read_record_slot os disk r f e damaged header v h prefix payload room small =
    simp
      (
        le→ltb f.size (add64 r.current_offset 160) (omega arith),
        h.magic,
        h.header_crc,
        prefix,
        ==_refl,
      )
      (read_payload_slot f r e damaged header v h.size h.payload_crc payload)

-- A record at the offset: it is returned or skipped, and the offset moves behind it.
pub round_on_Slot :
    (os : Os) (disk : Disk) (r : Reader) (f : File) (seq : ℕ) (e : Event) (damaged : Bool)
    → mapped_file r.current_mmap disk ≡ f
    → IsEvent e
    → InSlot f r.current_offset ((seq, e), damaged)
    → r.current_offset + 160 ≤ f.size
    → f.size < 2 ^ 63
    → read_round os disk r ≡ round_of (e, damaged) r
unfolding read_round
round_on_Slot os disk r f seq e damaged m v (head, payload) room small =
    ap (λ g. read_record os disk r g (read_bytes g r.current_offset 32)) m
    ∙ (ap (read_record os disk r f) head
        ∙ read_record_slot os disk r f e damaged (encode_record_header seq e) v
            (encode_record_header-fields seq e)
            (ap (take 20) (sym head) ∙ take-read f r.current_offset 20 32 (omega arith)) payload
            room small)

-- Where the file is blank, or has no room for a record, the segment is over.
pub round_on_Blank :
    (os : Os) (disk : Disk) (r : Reader) (f : File)
    → mapped_file r.current_mmap disk ≡ f
    → Blank f r.current_offset
    → read_round os disk r ≡ next_segment os disk r
unfolding read_round read_record
round_on_Blank os disk r f m blank =
    ap (λ g. read_record os disk r g (read_bytes g r.current_offset 32)) m
    ∙ (ap (read_record os disk r f) (read-Blank f r.current_offset 32 blank) ∙ ground arith)

-- The reader that has entered a segment.
abbrev pub entered : ℕ → Reader → Reader
entered id r = record r {
  current_mmap = some id;
  current_offset = 64;
  stats = record (r.stats) { segments_read = add64 r.stats.segments_read 1 };
  is_open = true;
}

pub open_read_only_sound :
    (os : Os) (disk : Disk) (id : ℕ) (f : File)
    → lookup id disk ≡ some f
    → os id ≡ all_succeed
    → f.size ≢ 0
    → open_read_only os id disk ≡ (k_ok, some id)
unfolding open_read_only
open_read_only_sound os disk id f found good ne = ground arith

pub enter_sound :
    (os : Os) (disk : Disk) (r : Reader) (id : ℕ) (f : File)
    → lookup id disk ≡ some f
    → os id ≡ all_succeed
    → f.size ≢ 0
    → check_segment f ≡ true
    → enter_segment (open_read_only os id disk) disk r ≡ (ok tt, entered id r)
enter_sound os disk r id f found good ne sound =
    ap (λ m. enter_segment m disk r) (open_read_only_sound os disk id f found good ne)
    ∙ unfold enter_segment in ground arith

-- Loading a sound segment.
pub load_sound :
    (os : Os) (disk : Disk) (r : Reader) (id : ℕ) (f : File)
    → get_elem? r.segment_paths r.current_segment_index ≡ some id
    → lookup id disk ≡ some f
    → os id ≡ all_succeed
    → f.size ≢ 0
    → check_segment f ≡ true
    → load_current_segment os disk r ≡ (ok tt, entered id r)
unfolding load_current_segment
load_sound os disk r id f path found good ne sound =
    rw (path, load_current_segment) (enter_sound os disk r id f found good ne sound)
