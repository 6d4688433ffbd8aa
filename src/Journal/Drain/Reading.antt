-- ===== src/Journal/Drain/Reading.antt =====
-- What `read_loop` does on sound segments.
use ume.Prelude.{
  ℕ, zero, false, Bool-cases, inl, inr, suc, ◌+◌, ◌^◌, ◌<◌, ◌≡◌, refl, sym, ap, subst, ◌∙◌, Option,
  none, some, List, [], ◌∷◌, arith, length, get_elem?,
}
use ume.Status.{Result, ok, err, not_found}
use ume.Event.{Event}
use ume.Journal.Disk.{Os, Disk}
use ume.Journal.Reader.{
  Reader, load_current_segment, returns, continues, after_load, next_segment, read_round, read_loop,
}
use ume.Journal.Drain.Ahead.{Stream, left, next_sound, behind}
use ume.Journal.Drain.Kept.{Found, is_kept, given, lost}
use ume.Journal.Drain.Rounds.{
  Slot, past, past_rejected, round_of, round_on_Slot, round_on_Blank, entered,
}

pub load_at_end :
    (os : Os) (disk : Disk) (r : Reader)
    → get_elem? r.segment_paths r.current_segment_index ≡ none
    → load_current_segment os disk r ≡ (err not_found, r)
unfolding load_current_segment
load_at_end os disk r e = rw (e, load_current_segment)

pub next_at_end :
    (os : Os) (disk : Disk) (r : Reader)
    → get_elem? r.segment_paths (r.current_segment_index + 1) ≡ none
    → next_segment os disk r
      ≡ returns (err not_found) (record r { current_segment_index = r.current_segment_index + 1 })
unfolding next_segment
next_at_end os disk r e = ap after_load (load_at_end os disk _ e)

-- What `read_loop` does on a stream with these events left: it returns the first that is kept, or
-- the journal is over; those before it are counted as skipped. A later call needs no more than the
-- limit.
pub data Reads (os : Os) (disk : Disk) (limit skipped : ℕ) (out : Option (Result Event × Reader))
    (es : List Found) : Type 0 where
  at_end :
      (r : Reader)
      → out ≡ some (err not_found, r)
      → given es ≡ []
      → r.stats.corrupted_records_skipped ≡ skipped + lost es
      → Reads os disk limit skipped out es
  one :
      (e : Event) (r : Reader) (rs : List Slot) (segs : List (List Slot))
      → out ≡ some (ok e, r)
      → given es ≡ e ∷ given (left rs segs)
      → r.stats.corrupted_records_skipped + lost (left rs segs) ≡ skipped + lost es
      → Stream os disk r rs segs
      → length segs + lost (left rs segs) < limit
      → Reads os disk limit skipped out es

-- An event that is skipped.
Reads-skip :
    (os : Os) (disk : Disk) (limit skipped skipped' : ℕ) (out : Option (Result Event × Reader))
    (x : Found) (es : List Found)
    → is_kept x ≡ false
    → skipped' ≡ skipped + 1
    → Reads os disk limit skipped' out es
    → Reads os disk limit skipped out (x ∷ es)
Reads-skip os disk limit skipped skipped' out e es bad up (at_end r h none_kept count) =
    at_end r h (simp bad none_kept) (simp bad (omega (arith, up, count)))
Reads-skip os disk limit skipped skipped' out e es bad up (one x r rs segs h first count s fits) =
    one x r rs segs h (simp bad first) (simp bad (omega (arith, up, count))) s fits

pub loop_of_return :
    (os : Os) (disk : Disk) (fuel : ℕ) (r : Reader) {r' : Reader} {result : Result Event}
    → read_round os disk r ≡ returns result r'
    → read_loop (suc fuel) os disk r ≡ some (result, r')
unfolding read_loop
loop_of_return os disk fuel r e = rw (e, read_loop)

pub loop_of_continue :
    (os : Os) (disk : Disk) (fuel : ℕ) (r : Reader) {r' : Reader}
    → read_round os disk r ≡ continues r'
    → read_loop (suc fuel) os disk r ≡ read_loop fuel os disk r'
unfolding read_loop
loop_of_continue os disk fuel r e = rw (e, read_loop)

pub read_loop-Reads :
    (os : Os) (disk : Disk) (limit fuel : ℕ) (r : Reader) (rs : List Slot) (segs : List (List Slot))
    → length segs + lost (left rs segs) < fuel
    → length segs + lost (left rs segs) < limit
    → r.stats.corrupted_records_skipped + lost (left rs segs) < 2 ^ 64
    → Stream os disk r rs segs
    → Reads os disk limit r.stats.corrupted_records_skipped
        (read_loop fuel os disk r)
        (left rs segs)
read_loop-Reads os disk limit zero r rs segs h g small s = absurd (omega arith)
read_loop-Reads os disk limit (suc fuel) r (((seq, e), damaged) ∷ rs) segs h g small s =
    let round : read_round os disk r ≡ round_of (e, damaged) r =
      round_on_Slot os disk r s.file seq e damaged s.mapped s.widths.0 s.records.0
        (omega (arith, s.room)) s.small in
    elim (Bool-cases (is_kept (e, damaged))) [
      | inl good ↦
          one e (past r) rs segs (loop_of_return os disk fuel r (round ∙ simp good refl))
            (simp good refl) (simp good (omega arith))
            (behind os disk r (past r) ((seq, e), damaged) rs segs refl refl refl refl refl s)
            (ground (arith, good))
      | inr bad ↦
          let count : lost (left (((seq, e), damaged) ∷ rs) segs) ≡ 1 + lost (left rs segs) =
            simp bad refl in
          let next = past_rejected r in
          subst
            (λ out.
              Reads os disk limit r.stats.corrupted_records_skipped out
                (left (((seq, e), damaged) ∷ rs) segs))
            (sym (loop_of_continue os disk fuel r (round ∙ simp bad refl)))
            (Reads-skip os disk limit r.stats.corrupted_records_skipped
              next.stats.corrupted_records_skipped _ (e, damaged) (left rs segs) bad
              (omega (arith, count))
              (read_loop-Reads os disk limit fuel next rs segs (omega (arith, count))
                (omega (arith, count)) (omega (arith, count))
                (behind os disk r next ((seq, e), damaged) rs segs refl refl refl refl refl s)))
    ]
read_loop-Reads os disk limit (suc fuel) r [] [] h g small s =
    at_end (record r { current_segment_index = r.current_segment_index + 1 })
      (loop_of_return os disk fuel r
        (round_on_Blank os disk r s.file s.mapped s.records ∙ next_at_end os disk r s.follows))
      refl (omega arith)
read_loop-Reads os disk limit (suc fuel) r [] (rs ∷ segs) h g small s =
    let (id, step, t) = next_sound os disk r rs segs s.follows in
    subst (λ out. Reads os disk limit r.stats.corrupted_records_skipped out (left rs segs))
      (sym (
        loop_of_continue os disk fuel r
          (round_on_Blank os disk r s.file s.mapped s.records ∙ step)))
      (read_loop-Reads os disk limit fuel
        (entered id (record r { current_segment_index = r.current_segment_index + 1 })) rs segs
        (omega arith) (omega arith) small t)
