-- ===== src/Journal/Appends/Tests.antt =====
-- Two threads on a segment with room for two records.
use ume.Prelude.{◌≡◌, refl, true, Option, none, some, List, [], ◌∷◌, ◌++◌, arith}
use ume.Journal.Appends.{outside, SharedWriter, Record, Action, calls, goes_on, act_all}
use ume.Journal.Appends.Complete.{Completes, act_all-Completes}

abbrev writer : SharedWriter
writer = record {
  segment_size_bytes = 384;
  current_segment_id = 0;
  current_mmap = some 0;
  write_offset = 64;
  sequence_counter = 0;
  lock_holder = none;
  records = [];
  threads = λ t. outside;
}

abbrev two_calls : List Action
two_calls = calls 1 ∷ calls 2 ∷ goes_on 2 true ∷ goes_on 1 true ∷ []

act_all-Completes_example : Completes 0 two_calls writer
act_all-Completes_example = act_all-Completes 0 two_calls writer (record {
  mapped = refl;
  room = omega arith;
  small = omega arith;
  inside = tt;
  apart = tt;
  threads_in = λ t. tt;
  threads_apart = λ t u h. tt;
})

-- The first thread has a place in the first segment; the second one rolls over.
abbrev until_closed : List Action
until_closed = calls 1 ∷ calls 2 ∷ goes_on 2 true ∷ calls 2 ∷ goes_on 2 true ∷ goes_on 2 true ∷ []

abbrev records_of : Option SharedWriter → Option (List Record)
records_of none = none
records_of (some s) = some s.records

-- Where the first thread writes before the next segment is mapped, the process ends.
written_unmapped : act_all (until_closed ++ goes_on 1 true ∷ []) (some writer) ≡ none
written_unmapped = refl

-- Where it writes afterwards, its record lies over the one of the second thread.
written_over :
    records_of (
      act_all
        (until_closed
          ++ goes_on 2 true
            ∷ goes_on 2 true
            ∷ goes_on 2 true
            ∷ goes_on 2 true
            ∷ goes_on 1 true
            ∷ [])
        (some writer))
    ≡ some (
        record { segment = 1; offset = 64; sequence_num = 3; thread = 1 }
        ∷ record { segment = 1; offset = 64; sequence_num = 2; thread = 2 }
        ∷ record { segment = 0; offset = 224; sequence_num = 1; thread = 2 }
        ∷ [])
written_over = refl
