-- ===== src/Journal/Append.antt =====
-- `JournalWriter`: its invariant against the events recorded in each segment, and what `append`
-- adds.
mod Log
mod Reserve
mod Roll
unfoldable pub use Log.*
unfoldable pub use Reserve.*
unfoldable pub use Roll.*
use ume.Prelude.{
  ℕ, suc, ◌+◌, ◌*◌, ◌^◌, ◌≤◌, ◌<◌, ◌≡◌, refl, sym, ap, subst, ◌∙◌, inl, inr, true, none, some, [],
  ◌∷◌, ◌++◌, append-nil, arith, ltb, ◌==◌, if◌then◌else◌, lt→ltb, le→ltb, Bool-cases, add64, lookup,
  insert, lookup-insert,
}
use ume.Status.{Result, ok, err, k_ok, not_initialized}
use ume.Event.{Event, IsEvent}
use ume.Journal.File.{File, write_bytes}
use ume.Journal.Format.{encode_segment_header}
use ume.Journal.Disk.{Os, Disk, all_succeed, open_read_write, resize, file_or_empty, empty_file}
use ume.Journal.Writer.{
  Writer, closed_writer, finish_open, open_writer, start_segment, write_rolled, roll_segment_locked,
  write_record, reserve_and_write, rollover, append_open, append, min_segment_size,
}
use ume.Journal.Contents.{Entry, Segment, write_entry, Segment-write_entry, Segment-fresh}

-- What one append does: it returns the next sequence number, and the entry is the last one
-- recorded.
pub record Appends (w : Writer) (disk : Disk) (c : Contents) (e : Event)
    (out : Result ℕ × Writer × Disk) : Type 0 where
  pub returns : out.0 ≡ ok (add64 w.sequence_counter 1)
  pub counter : out.1.sequence_counter ≡ add64 w.sequence_counter 1
  pub size : out.1.segment_size_bytes ≡ w.segment_size_bytes
  pub stays :
      w.write_offset + 160 ≤ w.segment_size_bytes → out.1.current_segment_id ≡ w.current_segment_id
  pub rolls :
      w.segment_size_bytes < w.write_offset + 160
      → out.1.current_segment_id ≡ w.current_segment_id + 1
  pub segment : out.1.current_segment_id ≤ w.current_segment_id + 1
  pub logs : Logs out.1 out.2 (add_entry c out.1.current_segment_id (add64 w.sequence_counter 1, e))
  pub last :
      entries
        (add_entry c out.1.current_segment_id (add64 w.sequence_counter 1, e))
        (suc out.1.current_segment_id)
      ≡ entries c (suc w.current_segment_id) ++ (add64 w.sequence_counter 1, e) ∷ []

reserve_and_write-Appends :
    (w : Writer) (disk : Disk) (c : Contents) (e : Event)
    → IsEvent e
    → Logs w disk c
    → w.write_offset + 160 ≤ w.segment_size_bytes
    → Appends w disk c e (reserve_and_write e w disk)
reserve_and_write-Appends w disk c e v l room =
    let (returns, same, counter, size, logs) = reserve_and_write-Logs w disk c e v l room in
    let x : Entry = (add64 w.sequence_counter 1, e) in
    record {
      returns = returns;
      counter = counter;
      size = size;
      stays = λ fits. same;
      rolls = λ full. absurd (omega arith);
      segment = omega (arith, same);
      logs =
          subst
            (λ k.
              Logs (reserve_and_write e w disk).1 (reserve_and_write e w disk).2 (add_entry c k x))
            (sym same) logs;
      last =
          subst
            (λ k.
              entries (add_entry c k x) (suc k) ≡ entries c (suc w.current_segment_id) ++ x ∷ [])
            (sym same) (entries-add_entry c w.current_segment_id x);
    }

-- The new segment holds nothing, so the entry follows those of the segments before it.
entries-next_segment :
    (c : Contents) (k id : ℕ) (x : Entry)
    → id ≡ suc k
    → c id ≡ []
    → entries (add_entry c id x) (suc id) ≡ entries c (suc k) ++ x ∷ []
entries-next_segment c k id x e none_yet = entries-add_entry c id x ∙ ap (λ es. es ++ x ∷ []) before
  where
    before : entries c (suc id) ≡ entries c (suc k)
    before =
        unfold entries in
        (ap (λ es. entries c id ++ es) none_yet ∙ (append-nil (entries c id) ∙ ap (entries c) e))

rolled-Appends :
    (w : Writer) (disk disk' : Disk) (c : Contents) (e : Event)
    → IsEvent e
    → Logs w disk c
    → Logs (rolled w) disk' c
    → w.current_segment_id + 1 < 2 ^ 64
    → w.segment_size_bytes < w.write_offset + 160
    → Appends w disk c e (write_rolled e (k_ok, rolled w, disk'))
unfolding write_rolled rolled
rolled-Appends w disk disk' c e v l l' small full =
    let id = add64 w.current_segment_id 1 in
    let x : Entry = (add64 w.sequence_counter 1, e) in
    let out = reserve_and_write e (rolled w) disk' in
    let (returns, same, counter, size, logs) =
      reserve_and_write-Logs (rolled w) disk' c e v l' (omega (arith, l.least)) in
    record {
      returns = returns;
      counter = counter;
      size = size;
      stays = λ fits. absurd (omega arith);
      rolls = λ over. omega (arith, same);
      segment = omega (arith, same);
      logs = subst (λ k. Logs out.1 out.2 (add_entry c k x)) (sym same) logs;
      last =
          subst
            (λ k.
              entries (add_entry c k x) (suc k) ≡ entries c (suc w.current_segment_id) ++ x ∷ [])
            (sym same)
            (entries-next_segment c w.current_segment_id id x (omega arith)
              (l.later_entries id (omega arith)));
    }

-- The branch of `append` whose record does not fit.
rollover-Appends :
    (os : Os) (now : ℕ) (w : Writer) (disk : Disk) (c : Contents) (e : Event)
    → IsEvent e
    → Logs w disk c
    → w.current_segment_id + 1 < 2 ^ 64
    → os (add64 w.current_segment_id 1) ≡ all_succeed
    → ltb w.segment_size_bytes (add64 w.write_offset 160) ≡ true
    → Appends w disk c e
        (rollover os now e (record w { write_offset = add64 w.write_offset 160 }) disk)
unfolding rollover
rollover-Appends os now w disk c e v l small good full =
    rw
      (lt→ltb w.segment_size_bytes (add64 (add64 w.write_offset 160) 160)
        (ground (arith, l.most, l.fits)))
      (subst (λ t. Appends w disk c e (write_rolled e t))
        (sym (
          roll-all_succeed os now
            (record w {
              current_segment_id = add64 w.current_segment_id 1;
              write_offset = add64 w.write_offset 160;
            })
            disk good (l.later_files (add64 w.current_segment_id 1) (omega arith))))
        (unfold rolled in
          rolled-Appends w disk _ c e v l (Logs-rolled w disk c now l small) small
            (ground (arith, l.most, l.fits))))

append_open-Appends :
    (os : Os) (now : ℕ) (w : Writer) (disk : Disk) (c : Contents) (e : Event)
    → IsEvent e
    → Logs w disk c
    → w.current_segment_id + 1 < 2 ^ 64
    → os (add64 w.current_segment_id 1) ≡ all_succeed
    → Appends w disk c e (append_open os now e w disk)
unfolding append_open
append_open-Appends os now w disk c e v l small good =
    elim (Bool-cases (ltb w.segment_size_bytes (add64 w.write_offset 160))) [
      | inl full ↦ simp full (rollover-Appends os now w disk c e v l small good full)
      | inr fits ↦ simp fits (
          unfold reserve_and_write in
          reserve_and_write-Appends w disk c e v l (ground (arith, l.most, l.fits)))
    ]

-- `append` on an open writer whose directory can be written returns the next sequence number and
-- records the event behind those before it: in the same segment where that has room for the record,
-- else in the next one; nothing recorded before is lost.
pub append-Appends :
    (os : Os) (now : ℕ) (w : Writer) (disk : Disk) (c : Contents) (e : Event)
    → IsEvent e
    → Logs w disk c
    → w.current_segment_id + 1 < 2 ^ 64
    → os (add64 w.current_segment_id 1) ≡ all_succeed
    → Appends w disk c e (append os now e w disk)
unfolding append
append-Appends os now w disk c e v l small good =
    subst
      (λ b.
        Appends w disk c e
          (if b then append_open os now e w disk else (err not_initialized, w, disk)))
      (sym l.opened) (append_open-Appends os now w disk c e v l small good)

abbrev pub no_contents : Contents
no_contents i = []

-- The writer that `open` gives on a directory without segments.
abbrev pub opened_writer : ℕ → Writer
opened_writer size = record closed_writer {
  segment_size_bytes = size;
  current_mmap = some 0;
  write_offset = 64;
  is_open = true;
}

abbrev pub first_segment : ℕ → ℕ → File
first_segment now size = write_bytes (fresh_file size) 0 (encode_segment_header 0 now size)

abbrev pub opened_disk : ℕ → ℕ → Disk → Disk
opened_disk now size disk = insert 0 (first_segment now size) (insert 0 (fresh_file size) disk)

-- `open` with a legal segment size succeeds, and leaves an empty journal.
pub open_writer-opens :
    (os : Os) (now size : ℕ) (disk : Disk)
    → os 0 ≡ all_succeed
    → min_segment_size ≤ size
    → lookup 0 disk ≡ none
    → open_writer os now size closed_writer disk
      ≡ (ok tt, opened_writer size, opened_disk now size disk)
unfolding open_writer
open_writer-opens os now size disk good h absent = simp (le→ltb size min_segment_size h) (
    ap finish_open (
      roll-all_succeed os now (record closed_writer { segment_size_bytes = size }) disk good
        absent))

pub opened-Logs :
    (now size : ℕ) (disk : Disk)
    → min_segment_size ≤ size
    → size < 2 ^ 63
    → ((i : ℕ) → lookup i disk ≡ none)
    → Logs (opened_writer size) (opened_disk now size disk) no_contents
opened-Logs now size disk h g absent =
    let looks : (i : ℕ)
        → lookup i (opened_disk now size disk)
          ≡ (if 0 == i then some (first_segment now size) else lookup i disk) =
      λ i.
        lookup-insert 0 i (first_segment now size) (insert 0 (fresh_file size) disk)
        ∙ ground (arith, lookup-insert 0 i (fresh_file size) disk) in
    record {
      opened = refl;
      mapped = refl;
      least = h;
      most = g;
      offset = refl;
      fits = omega (arith, h);
      held = λ i below. (
        first_segment now size,
        looks i ∙ ground arith,
        Segment-fresh size 0 now (fresh_file size) (omega (arith, h)) refl (λ j p. ground arith),
      );
      later_files = λ i above. looks i ∙ ground (arith, absent i);
      later_entries = λ i above. refl;
    }
