-- ===== src/Journal/Reader.antt =====
-- `JournalReader` of core/src/event/journal_reader.cpp. A path is the number of its segment, and
-- `open_directory` is given the numbers of the files in the order in which the directory lists
-- them. The header that `load_current_segment` keeps in a member is used nowhere else, so it has no
-- field.
use ume.Prelude.{
  ℕ, zero, suc, ◌+◌, Bool, true, false, not, ◌&&◌, Option, none, some, List, [], ◌∷◌, if◌then◌else◌,
  ltb, ◌==◌, add64, take, get_elem?,
}
use ume.Status.{
  Status, Result, ok, err, is_error, not_found, not_initialized, journal_corrupted, file_not_found,
}
use ume.Event.{Event}
use ume.Serializer.{deserialize}
use ume.Crc.{compute_crc32}
use ume.Journal.File.{File, read_bytes}
use ume.Journal.Format.{
  segment_magic, record_magic, sizeof_segment_header, sizeof_record_header, record_bytes,
  segment_magic_of, segment_crc32_of, record_magic_of, record_size_of, header_crc32_of,
  payload_crc32_of,
}
use ume.Journal.Paths.{sort_paths}
use ume.Journal.Disk.{Os, Disk, open_read_only, mapped_file}

pub record ReaderStats : Type 0 where
  pub segments_read : ℕ
  pub records_read : ℕ
  pub bytes_read : ℕ
  pub corrupted_records_skipped : ℕ

pub record Reader : Type 0 where
  pub segment_paths : List ℕ
  pub current_segment_index : ℕ
  pub current_mmap : Option ℕ
  pub current_offset : ℕ
  pub stats : ReaderStats
  pub is_open : Bool

abbrev pub no_stats : ReaderStats
no_stats = record {
  segments_read = 0;
  records_read = 0;
  bytes_read = 0;
  corrupted_records_skipped = 0;
}

abbrev pub closed_reader : Reader
closed_reader = record {
  segment_paths = [];
  current_segment_index = 0;
  current_mmap = none;
  current_offset = sizeof_segment_header;
  stats = no_stats;
  is_open = false;
}

unfoldable pub close : Reader → Reader
close r = record closed_reader { stats = r.stats }

-- What `load_current_segment` checks in a mapped file.
unfoldable pub check_header : ℕ → List ℕ → Bool
check_header size header =
    not (ltb size sizeof_segment_header)
    && (segment_magic_of header == segment_magic
        && compute_crc32 (take 32 header) == segment_crc32_of header)

unfoldable pub check_segment : File → Bool
check_segment f = check_header f.size (read_bytes f 0 sizeof_segment_header)

-- After `open_read_only`. On a bad header the file stays mapped.
unfoldable pub enter_segment : Status × Option ℕ → Disk → Reader → Result (Unit {0}) × Reader
enter_segment (status, mmap) disk r =
    if is_error status
    then (err status, record r { current_mmap = mmap })
    else if check_segment (mapped_file mmap disk)
    then (
      ok tt,
      record r {
        current_mmap = mmap;
        current_offset = sizeof_segment_header;
        stats = record (r.stats) { segments_read = add64 r.stats.segments_read 1 };
        is_open = true;
      },
    )
    else (err journal_corrupted, record r { current_mmap = mmap })

unfoldable pub load_current_segment : Os → Disk → Reader → Result (Unit {0}) × Reader
load_current_segment os disk r = elim (get_elem? r.segment_paths r.current_segment_index) [
  | none ↦ (err not_found, r)
  | some id ↦ enter_segment (open_read_only os id disk) disk r
]

unfoldable pub open_segment : Os → Disk → ℕ → Reader → Result (Unit {0}) × Reader
open_segment os disk path r =
    load_current_segment os disk (record (close r) { segment_paths = path ∷ [] })

-- `none` is a directory that does not exist.
unfoldable pub open_directory : Os → Disk → Option (List ℕ) → Reader → Result (Unit {0}) × Reader
open_directory os disk none r = (err file_not_found, close r)
open_directory os disk (some []) r = (err file_not_found, close r)
open_directory os disk (some (path ∷ paths)) r =
    load_current_segment os disk (record (close r) { segment_paths = sort_paths (path ∷ paths) })

-- A round of the loop of `read_next` returns or goes on.
pub data Round : Type 0 where
  returns : Result Event → Reader → Round
  continues : Reader → Round

-- The end of a segment: the next one is loaded, or the journal is over.
abbrev pub after_load : Result (Unit {0}) × Reader → Round
after_load (ok _, r) = continues r
after_load (err _, r) = returns (err not_found) r

unfoldable pub next_segment : Os → Disk → Reader → Round
next_segment os disk r = after_load (
    load_current_segment os disk (record r { current_segment_index = r.current_segment_index + 1 }))

-- A damaged record: `step` bytes further on.
abbrev pub skip : ℕ → Reader → Reader
skip step r = record r {
  current_offset = add64 r.current_offset step;
  stats = record (r.stats) {
    corrupted_records_skipped = add64 r.stats.corrupted_records_skipped 1;
  };
}

-- A record whose header is sound.
unfoldable pub read_payload : File → List ℕ → Reader → Round
read_payload f header r =
    let payload = read_bytes f (r.current_offset + sizeof_record_header) 128 in
    if compute_crc32 payload == payload_crc32_of header
    then elim (deserialize (some payload) 128) [
      | err _ ↦ continues (skip (record_size_of header) r)
      | ok event ↦ returns (ok event) (record r {
        current_offset = add64 r.current_offset (record_size_of header);
        stats = record (r.stats) {
          records_read = add64 r.stats.records_read 1;
          bytes_read = add64 r.stats.bytes_read (record_size_of header);
        };
      })
    ]
    else continues (skip (record_size_of header) r)

-- One round of the loop, at a mapped file and the 32 bytes at the offset.
unfoldable pub read_record : Os → Disk → Reader → File → List ℕ → Round
read_record os disk r f header =
    if ltb f.size (add64 r.current_offset record_bytes)
    then next_segment os disk r
    else if record_magic_of header == 0 && record_size_of header == 0
    then next_segment os disk r
    else if not (record_magic_of header == record_magic)
    then continues (skip 1 r)
    else if not (compute_crc32 (read_bytes f r.current_offset 20) == header_crc32_of header)
    then continues (skip 8 r)
    else read_payload f header r

unfoldable pub read_round : Os → Disk → Reader → Round
read_round os disk r =
    let f = mapped_file r.current_mmap disk in
    read_record os disk r f (read_bytes f r.current_offset sizeof_record_header)

-- The loop, with fuel; `none` means that the fuel ran out.
unfoldable pub read_loop : ℕ → Os → Disk → Reader → Option (Result Event × Reader)
read_loop zero os disk r = none
read_loop (suc fuel) os disk r = elim (read_round os disk r) [
  | returns result r' ↦ some (result, r')
  | continues r' ↦ read_loop fuel os disk r'
]

unfoldable pub read_next : ℕ → Os → Disk → Reader → Option (Result Event × Reader)
read_next fuel os disk r =
    if r.is_open then read_loop fuel os disk r else some (err not_initialized, r)

abbrev pub add_event : Event → Option (List Event × Reader) → Option (List Event × Reader)
add_event e none = none
add_event e (some (es, r)) = some (e ∷ es, r)

abbrev pub drain_after :
    (Reader → Option (List Event × Reader))
    → Option (Result Event × Reader)
    → Option (List Event × Reader)
drain_after go_on none = none
drain_after go_on (some (err s, r)) = some ([], r)
drain_after go_on (some (ok e, r)) = add_event e (go_on r)

-- What a caller that reads until `read_next` fails gets, as `ReplayEngine` does: the events in
-- order, and the reader at the end.
unfoldable pub drain : ℕ → ℕ → Os → Disk → Reader → Option (List Event × Reader)
drain zero fuel os disk r = none
drain (suc n) fuel os disk r = drain_after (drain n fuel os disk) (read_next fuel os disk r)
