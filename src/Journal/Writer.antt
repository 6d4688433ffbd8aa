-- ===== src/Journal/Writer.antt =====
-- `JournalWriter` of core/src/event/journal_writer.cpp, one call at a time. The directory is the
-- `Disk`, so `directory_path_` has no field; the file of a segment is named by its number. `now` is
-- the clock's reading, `sync` the status of `msync`.
use ume.Prelude.{
  ℕ, ◌+◌, ◌*◌, Bool, true, false, Option, none, some, if◌then◌else◌, ltb, add64, List, [], ◌∷◌,
}
use ume.Status.{
  Status, Result, ok, err, k_ok, is_error, already_initialized, invalid_argument, not_initialized,
}
use ume.Event.{Event}
use ume.Event.Codec.{encode}
use ume.Journal.File.{write_bytes}
use ume.Journal.Format.{
  encode_segment_header, encode_record_header, sizeof_segment_header, sizeof_record_header,
  record_bytes,
}
use ume.Journal.Disk.{Os, Disk, open_read_write, mapped_file, store}

pub record Writer : Type 0 where
  pub segment_size_bytes : ℕ
  pub current_segment_id : ℕ
  pub current_mmap : Option ℕ
  pub write_offset : ℕ
  pub sequence_counter : ℕ
  pub total_events_written : ℕ
  pub total_bytes_written : ℕ
  pub is_open : Bool

-- The default member initialisers.
abbrev pub closed_writer : Writer
closed_writer = record {
  segment_size_bytes = 64 * 1024 * 1024;
  current_segment_id = 0;
  current_mmap = none;
  write_offset = sizeof_segment_header;
  sequence_counter = 0;
  total_events_written = 0;
  total_bytes_written = 0;
  is_open = false;
}

-- A status, or `kOk`.
abbrev pub status_result : Status → Result (Unit {0})
status_result k_ok = ok tt
status_result s = err s

-- `roll_segment_locked` once the file is opened: its header is written if it is mapped.
unfoldable pub start_segment : ℕ → Writer → Status × Option ℕ × Disk → Status × Writer × Disk
start_segment now w (status, mmap, disk) =
    if is_error status then (status, record w { current_mmap = mmap }, disk) else (
      k_ok,
      record w { current_mmap = mmap; write_offset = sizeof_segment_header },
      store mmap
          (write_bytes (mapped_file mmap disk) 0
            (encode_segment_header w.current_segment_id now w.segment_size_bytes))
          disk,
    )

-- The old mapping is flushed and closed, and the file of the current segment mapped.
unfoldable pub roll_segment_locked : Os → ℕ → Writer → Disk → Status × Writer × Disk
roll_segment_locked os now w disk =
    start_segment now w (open_read_write os w.current_segment_id w.segment_size_bytes disk)

abbrev pub min_segment_size : ℕ
min_segment_size = 1024 * 1024

-- The writer is open once its first segment is.
abbrev pub finish_open : Status × Writer × Disk → Result (Unit {0}) × Writer × Disk
finish_open (status, w, disk) =
    if is_error status
    then (status_result status, w, disk)
    else (ok tt, record w { is_open = true }, disk)

unfoldable pub open_writer : Os → ℕ → ℕ → Writer → Disk → Result (Unit {0}) × Writer × Disk
open_writer os now segment_size w disk =
    if w.is_open
    then (err already_initialized, w, disk)
    else if ltb segment_size min_segment_size
    then (err invalid_argument, w, disk)
    else finish_open (
        roll_segment_locked os now
          (record w { segment_size_bytes = segment_size; current_segment_id = 0 }) disk)

-- The part of `append` after the space is reserved at `offset`.
unfoldable pub write_record : ℕ → Event → Writer → Disk → Result ℕ × Writer × Disk
write_record offset event w disk =
    let seq = add64 w.sequence_counter 1 in
    let f = mapped_file w.current_mmap disk in
    (
      ok seq,
      record w {
        sequence_counter = seq;
        total_events_written = add64 w.total_events_written 1;
        total_bytes_written = add64 w.total_bytes_written record_bytes;
      },
      store w.current_mmap
          (write_bytes (write_bytes f offset (encode_record_header seq event))
            (offset + sizeof_record_header) (encode event))
          disk,
    )

-- `write_offset_.fetch_add`, and what follows it.
unfoldable pub reserve_and_write : Event → Writer → Disk → Result ℕ × Writer × Disk
reserve_and_write event w disk =
    write_record w.write_offset event
      (record w { write_offset = add64 w.write_offset record_bytes }) disk

-- A failed roll fails the append.
unfoldable pub write_rolled : Event → Status × Writer × Disk → Result ℕ × Writer × Disk
write_rolled event (status, w, disk) =
    if is_error status then (err status, w, disk) else reserve_and_write event w disk

-- The branch of `append` that holds the lock, its own offset being past the end. The offset is read
-- again: it is `w.write_offset`, which the failed reservation has moved.
unfoldable pub rollover : Os → ℕ → Event → Writer → Disk → Result ℕ × Writer × Disk
rollover os now event w disk =
    if ltb w.segment_size_bytes (add64 w.write_offset record_bytes)
    then write_rolled event (
        roll_segment_locked os now (record w { current_segment_id = add64 w.current_segment_id 1 })
          disk)
    else reserve_and_write event w disk

-- `append` on an open writer: the space is reserved, and the writer rolls over if it is not there.
unfoldable pub append_open : Os → ℕ → Event → Writer → Disk → Result ℕ × Writer × Disk
append_open os now event w disk =
    let w' = record w { write_offset = add64 w.write_offset record_bytes } in
    if ltb w.segment_size_bytes (add64 w.write_offset record_bytes)
    then rollover os now event w' disk
    else write_record w.write_offset event w' disk

unfoldable pub append : Os → ℕ → Event → Writer → Disk → Result ℕ × Writer × Disk
append os now event w disk =
    if w.is_open then append_open os now event w disk else (err not_initialized, w, disk)

-- `flush`, with the status of `msync`.
unfoldable pub flush : Status → Writer → Result (Unit {0})
flush sync w =
    if w.is_open
    then elim w.current_mmap [ none ↦ err not_initialized | some id ↦ status_result sync ]
    else err not_initialized

unfoldable pub close : Writer → Result (Unit {0}) × Writer
close w =
    if w.is_open then (ok tt, record w { current_mmap = none; is_open = false }) else (ok tt, w)

-- Moving, by construction or by an assignment to another writer: the target, and what is left of
-- the source. The target of an assignment is closed first, and all its fields are overwritten.
abbrev pub move_writer : Writer → Writer × Writer
move_writer other = (other, record other { current_mmap = none; is_open = false })

-- A sequence of appends; `now` is the clock at each.
unfoldable pub append_all : Os → List (ℕ × Event) → Writer → Disk → Writer × Disk
append_all os [] w disk = (w, disk)
append_all os ((now, e) ∷ es) w disk =
    let (result, w', disk') = append os now e w disk in append_all os es w' disk'
