-- ===== src/Journal/Append/Roll.antt =====
-- A new segment of the journal.
use ume.Prelude.{
  ℕ, ◌+◌, ◌^◌, ◌<◌, ◌≡◌, refl, sym, ap, subst, ◌∙◌, none, some, arith, ℕ_discrete, ◌==◌,
  if◌then◌else◌, add64, lookup, insert, lookup-insert,
}
use ume.Status.{k_ok}
use ume.Journal.File.{File, write_bytes}
use ume.Journal.Format.{encode_segment_header}
use ume.Journal.Disk.{Os, Disk, all_succeed, open_read_write, resize, file_or_empty, empty_file}
use ume.Journal.Writer.{Writer, start_segment, roll_segment_locked}
use ume.Journal.Contents.{Segment, Segment-fresh}
use ume.Journal.Append.Log.{Contents, Logs}

abbrev pub fresh_file : ℕ → File
fresh_file size = resize size empty_file

pub open_read_write-fresh :
    (os : Os) (id size : ℕ) (disk : Disk)
    → os id ≡ all_succeed
    → lookup id disk ≡ none
    → open_read_write os id size disk ≡ (k_ok, some id, insert id (fresh_file size) disk)
unfolding open_read_write
open_read_write-fresh os id size disk good absent = rw (good, absent, open_read_write)

-- The file of a new segment is made of zeros and gets its header.
pub roll-all_succeed :
    (os : Os) (now : ℕ) (w : Writer) (disk : Disk)
    → os w.current_segment_id ≡ all_succeed
    → lookup w.current_segment_id disk ≡ none
    → let id = w.current_segment_id in
      let size = w.segment_size_bytes in
      roll_segment_locked os now w disk ≡ (
        k_ok,
        record w { current_mmap = some id; write_offset = 64 },
        insert id
            (write_bytes (fresh_file size) 0 (encode_segment_header id now size))
            (insert id (fresh_file size) disk),
      )
unfolding roll_segment_locked start_segment
roll-all_succeed os now w disk good absent =
    let id = w.current_segment_id in
    let size = w.segment_size_bytes in
    let stored = insert id (fresh_file size) disk in
    let found : lookup id stored ≡ some (fresh_file size) =
      lookup-insert id id (fresh_file size) disk ∙ ground arith in
    ap (start_segment now w) (open_read_write-fresh os id size disk good absent)
    ∙ ap
        (λ o. (
          k_ok,
          record w { current_mmap = some id; write_offset = 64 },
          insert id (write_bytes (file_or_empty o) 0 (encode_segment_header id now size)) stored,
        ))
        found

-- The writer on its new segment, `off` being where the failed reservation left the offset.
unfoldable pub rolled : Writer → Writer
rolled w = record w {
  current_segment_id = add64 w.current_segment_id 1;
  current_mmap = some (add64 w.current_segment_id 1);
  write_offset = 64;
}

-- A fresh segment keeps the invariant: it holds nothing yet.
pub Logs-rolled :
    (w : Writer) (disk : Disk) (c : Contents) (now : ℕ)
    → Logs w disk c
    → w.current_segment_id + 1 < 2 ^ 64
    → let id = add64 w.current_segment_id 1 in
      let size = w.segment_size_bytes in
      Logs
        (rolled w)
        (insert id
          (write_bytes (fresh_file size) 0 (encode_segment_header id now size))
          (insert id (fresh_file size) disk))
        c
unfolding rolled
Logs-rolled w disk c now l small =
    let id = add64 w.current_segment_id 1 in
    let size = w.segment_size_bytes in
    let f = write_bytes (fresh_file size) 0 (encode_segment_header id now size) in
    let looks : (i : ℕ)
        → lookup i (insert id f (insert id (fresh_file size) disk))
          ≡ (if id == i then some f else lookup i disk) =
      λ i.
        lookup-insert id i f (insert id (fresh_file size) disk)
        ∙ ground (arith, lookup-insert id i (fresh_file size) disk) in
    record {
      opened = l.opened;
      mapped = refl;
      least = l.least;
      most = l.most;
      offset = ground (arith, l.later_entries id (omega arith));
      fits = omega (arith, l.least);
      held = λ i h. elim (ℕ_discrete i id) [
        | yes e ↦ (
          f,
          looks i ∙ ground arith,
          subst (Segment size f) (sym (l.later_entries i (omega arith))) (
              Segment-fresh size id now (fresh_file size) (omega (arith, l.least)) refl
                (λ j p. ground arith)),
        )
        | no ne ↦ let (g, found, t) = l.held i (omega arith) in (g, looks i ∙ ground arith, t)
      ];
      later_files = λ i h. looks i ∙ ground (arith, l.later_files i (omega arith));
      later_entries = λ i h. l.later_entries i (omega arith);
    }
