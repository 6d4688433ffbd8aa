-- ===== src/Journal/Drain.antt =====
-- `JournalReader` on sound segments, called until it fails.
mod Kept
mod Rounds
mod Ahead
mod Reading
unfoldable pub use Kept.*
unfoldable pub use Rounds.*
unfoldable pub use Ahead.*
unfoldable pub use Reading.*
use ume.Prelude.{
  ◌+◌, ◌^◌, ℕ, zero, suc, ◌*◌, ◌<◌, ◌≡◌, sym, ap, subst, ◌∙◌, true, some, List, [], ◌∷◌, ◌++◌,
  arith, if◌then◌else◌, length,
}
use ume.Status.{Result, ok, err, ◌>>=◌, Status, k_ok, not_found, not_initialized}
use ume.Crc.{compute_crc32}
use ume.Event.{Event, IsEvent}
use ume.Event.Codec.{encode}
use ume.Serializer.{deserialize}
use ume.Serializer.Laws.{IsAcceptable, deserialize-encode}
use ume.Journal.File.{File, read_bytes, take-read, Blank, read-Blank}
use ume.Journal.Format.{
  record_size_of, payload_crc32_of, encode_record_header, encode_record_header-fields,
  IsRecordHeader,
}
use ume.Journal.Disk.{Os, Disk, all_succeed, open_read_only, mapped_file}
use ume.Journal.Reader.{
  Reader, check_segment, enter_segment, load_current_segment, returns, continues, after_load,
  next_segment, read_payload, read_record, read_round, read_loop, read_next, drain, drain_after,
  add_event,
}
use ume.Journal.Contents.{Entry, Record, Records, Segment}

read_next-open :
    (os : Os) (disk : Disk) (fuel : ℕ) (r : Reader)
    → r.is_open ≡ true
    → read_next fuel os disk r ≡ read_loop fuel os disk r
unfolding read_next
read_next-open os disk fuel r e =
    ap (λ b. if b then read_loop fuel os disk r else some (err not_initialized, r)) e

-- The caller gets every event that is left and kept, in order; the others are counted as corrupted.
pub record Drains (os : Os) (disk : Disk) (n fuel : ℕ) (r : Reader) (es : List Found) : Type 0 where
  pub final : Reader
  pub gives : drain n fuel os disk r ≡ some (given es, final)
  pub skipped : final.stats.corrupted_records_skipped ≡ r.stats.corrupted_records_skipped + lost es

drain_at_end :
    (os : Os) (disk : Disk) (n fuel : ℕ) (r : Reader) {s : Status} {r' : Reader}
    → read_next fuel os disk r ≡ some (err s, r')
    → drain (suc n) fuel os disk r ≡ some ([], r')
unfolding drain
drain_at_end os disk n fuel r e = ap (drain_after (drain n fuel os disk)) e

drain_of_event :
    (os : Os) (disk : Disk) (n fuel : ℕ) (r : Reader) {e : Event} {es : List Event}
    {r' r'' : Reader}
    → read_next fuel os disk r ≡ some (ok e, r')
    → drain n fuel os disk r' ≡ some (es, r'')
    → drain (suc n) fuel os disk r ≡ some (e ∷ es, r'')
unfolding drain
drain_of_event os disk n fuel r {e} h k =
    ap (drain_after (drain n fuel os disk)) h ∙ ap (add_event e) k

pub drain-Drains :
    (os : Os) (disk : Disk) (n fuel : ℕ) (r : Reader) (rs : List Slot) (segs : List (List Slot))
    → length segs + lost (left rs segs) < fuel
    → r.stats.corrupted_records_skipped + lost (left rs segs) < 2 ^ 64
    → length (given (left rs segs)) < n
    → Stream os disk r rs segs
    → Drains os disk n fuel r (left rs segs)
drain-Drains os disk zero fuel r rs segs h small k s = absurd (omega arith)
drain-Drains os disk (suc n) fuel r rs segs h small k s =
    take_event
      (subst (λ out. Reads os disk fuel skipped out (left rs segs))
        (sym (read_next-open os disk fuel r s.opened))
        (read_loop-Reads os disk fuel fuel r rs segs h h small s))
      (drain-Drains os disk n fuel)
  where
    skipped : ℕ
    skipped = r.stats.corrupted_records_skipped

    take_event :
        Reads os disk fuel skipped (read_next fuel os disk r) (left rs segs)
        → ((r' : Reader) (rs' : List Slot) (segs' : List (List Slot))
            → length segs' + lost (left rs' segs') < fuel
            → r'.stats.corrupted_records_skipped + lost (left rs' segs') < 2 ^ 64
            → length (given (left rs' segs')) < n
            → Stream os disk r' rs' segs'
            → Drains os disk n fuel r' (left rs' segs'))
        → Drains os disk (suc n) fuel r (left rs segs)
    take_event (at_end r' out none_kept count) rest = record {
      final = r';
      gives = drain_at_end os disk n fuel r out ∙ ap (λ es. some (es, r')) (sym none_kept);
      skipped = count;
    }
    take_event (one e r' rs' segs' out first count s' limit) rest =
        let longer : length (given (left rs segs)) ≡ suc (length (given (left rs' segs'))) =
          ap length first in
        let d = rest r' rs' segs' limit (omega (arith, count)) (omega (arith, longer)) s' in
        record {
          final = d.final;
          gives =
              drain_of_event os disk n fuel r out d.gives
              ∙ ap (λ es. some (es, d.final)) (sym first);
          skipped = d.skipped ∙ count;
        }
