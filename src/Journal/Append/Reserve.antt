-- ===== src/Journal/Append/Reserve.antt =====
-- A record is reserved and written in the current segment.
use ume.Prelude.{
  ℕ, ◌+◌, ◌*◌, ◌≤◌, ◌≡◌, refl, sym, ap, subst, ◌∙◌, some, [], ◌∷◌, ◌++◌, arith, ℕ_discrete, add64,
  length, length-append, lookup, insert, lookup-insert,
}
use ume.Status.{ok}
use ume.Event.{Event, IsEvent}
use ume.Journal.File.{File}
use ume.Journal.Disk.{Disk}
use ume.Journal.Writer.{Writer, write_record, reserve_and_write}
use ume.Journal.Contents.{Entry, Segment, write_entry, Segment-write_entry}
use ume.Journal.Append.Log.{Contents, add_entry, Holds, Logs}

-- Writing the file of the last segment, `k`, adds an entry to it and leaves the others alone.
pub held-insert :
    (size : ℕ) (disk : Disk) (c : Contents) (k : ℕ) (x : Entry) (f : File)
    → Segment size f (c k ++ x ∷ [])
    → ((j : ℕ) → j ≤ k → Holds size disk j (c j))
    → (i : ℕ) → i ≤ k
    → Holds size (insert k f disk) i (add_entry c k x i)
held-insert size disk c k x f s held i below = elim (ℕ_discrete i k) [
  | yes e ↦ (f, lookup-insert k i f disk ∙ ground arith, subst (Segment size f) (ground arith) s)
  | no ne ↦
      let (g, found, t) = held i below in
      (g, lookup-insert k i f disk ∙ ground arith, subst (Segment size g) (ground arith) t)
]

pub write_record-disk :
    (w : Writer) (off : ℕ) (e : Event) (disk : Disk) (k : ℕ) (f : File)
    → w.current_mmap ≡ some k
    → lookup k disk ≡ some f
    → (write_record off e w disk).2
      ≡ insert k (write_entry f off (add64 w.sequence_counter 1) e) disk
unfolding write_record
write_record-disk w off e disk k f m found = rw (m, found)

-- `fetch_add` and the write, where the record fits.
pub reserve_and_write-Logs :
    (w : Writer) (disk : Disk) (c : Contents) (e : Event)
    → IsEvent e
    → Logs w disk c
    → w.write_offset + 160 ≤ w.segment_size_bytes
    → let seq = add64 w.sequence_counter 1 in
      let (result, w', disk') = reserve_and_write e w disk in
      (result ≡ ok seq)
      × (w'.current_segment_id ≡ w.current_segment_id)
      × (w'.sequence_counter ≡ seq)
      × (w'.segment_size_bytes ≡ w.segment_size_bytes)
      × Logs w' disk' (add_entry c w.current_segment_id (seq, e))
unfolding reserve_and_write write_record
reserve_and_write-Logs w disk c e v l room =
    let k = w.current_segment_id in
    let (f, found, s) = l.held k (omega arith) in
    let x : Entry = (add64 w.sequence_counter 1, e) in
    let f' = write_entry f (64 + 160 * length (c k)) (add64 w.sequence_counter 1) e in
    let stored : (reserve_and_write e w disk).2 ≡ insert k f' disk =
      write_record-disk (record w { write_offset = add64 w.write_offset 160 }) w.write_offset e disk
        k f l.mapped found
      ∙ ap (λ off. insert k (write_entry f off (add64 w.sequence_counter 1) e) disk) l.offset in
    (
      refl,
      refl,
      refl,
      refl,
      record {
        opened = l.opened;
        mapped = l.mapped;
        least = l.least;
        most = l.most;
        offset = ground (arith, l.offset, length-append {0} (c k) (x ∷ []));
        fits = ground arith;
        held = λ i h.
            subst (λ d. Holds w.segment_size_bytes d i (add_entry c k x i)) (sym stored)
              (held-insert w.segment_size_bytes disk c k x f'
                (Segment-write_entry (c k) (add64 w.sequence_counter 1) e v s
                  (omega (arith, l.offset)))
                l.held i h);
        later_files = λ i h.
            ap (lookup i) stored ∙ (lookup-insert k i f' disk ∙ ground (arith, l.later_files i h));
        later_entries = λ i h. ground (arith, l.later_entries i h);
      },
    )
