-- ===== src/Journal/Appends/Disjoint.antt =====
-- Appends of several threads within a segment.
use ume.Prelude.{
  ℕ, suc, ◌+◌, ◌*◌, ◌^◌, ◌≤◌, ◌<◌, ◌≡◌, refl, sym, ap, subst, ◌∙◌, ◌≢◌, Bool, false, Option, none,
  some, List, [], ◌∷◌, arith, ℕ_discrete, add64, put, put_same, put_other,
}
use ume.Journal.Format.{record_bytes}
use ume.Journal.Appends.{
  Appender, outside, past_end, locked, opening, storing, rechecked, placed, SharedWriter, Action,
  calls, goes_on, is_past_end, call, write, go_on,
}
use ume.Journal.Appends.Places.{
  ApartFrom, AllApart, AllIn, ThreadIn, place, PlacesApart, AllIn-le, ApartFrom-next, Apart-sym,
  PlacesApart-next, put-apart, put-all,
}

-- The calls among the actions.
abbrev pub calls_in : List Action → ℕ
calls_in [] = 0
calls_in (calls t ∷ actions) = suc (calls_in actions)
calls_in (goes_on t opens ∷ actions) = calls_in actions

-- No two records overlap that are written or will be, all of them in one segment, which has room
-- for some more calls.
pub record IsDisjoint (segment more : ℕ) (s : SharedWriter) : Type 0 where
  pub mapped : s.current_mmap ≡ some segment
  pub room : s.write_offset + more * record_bytes ≤ s.segment_size_bytes
  pub small : s.segment_size_bytes < 2 ^ 64
  pub inside : AllIn segment s.write_offset s.records
  pub apart : AllApart s.records
  pub threads_in : (t : ℕ) → ThreadIn s (s.threads t)
  pub threads_apart : (t u : ℕ) → t ≢ u → PlacesApart (place (s.threads t)) (place (s.threads u))

ThreadIn-le :
    (s s' : SharedWriter) (a : Appender)
    → s.write_offset ≤ s'.write_offset
    → s'.records ≡ s.records
    → ThreadIn s a
    → ThreadIn s' a
ThreadIn-le s s' outside h e i = tt
ThreadIn-le s s' (placed i) h e (le, apart) = (omega arith, subst (ApartFrom i) (sym e) apart)
ThreadIn-le s s' past_end h e i = i
ThreadIn-le s s' locked h e i = i
ThreadIn-le s s' opening h e i = i
ThreadIn-le s s' storing h e i = i
ThreadIn-le s s' rechecked h e i = i

-- A reservation in a segment with room.
abbrev reserved : ℕ → SharedWriter → SharedWriter
reserved t s = record s {
  write_offset = add64 s.write_offset record_bytes;
  threads = put t (placed s.write_offset) s.threads;
}

reserved-IsDisjoint :
    (segment more t : ℕ) (s : SharedWriter)
    → IsDisjoint segment (suc more) s
    → IsDisjoint segment more (reserved t s)
reserved-IsDisjoint segment more t s d =
    let next : add64 s.write_offset record_bytes ≡ s.write_offset + record_bytes =
      omega (arith, d.room, d.small) in
    let le : s.write_offset ≤ add64 s.write_offset record_bytes = omega (arith, next) in
    record {
      mapped = d.mapped;
      room = omega (arith, d.room, next);
      small = d.small;
      inside = AllIn-le segment s.write_offset _ s.records le d.inside;
      apart = d.apart;
      threads_in =
          put-all (ThreadIn (reserved t s)) t (placed s.write_offset) s.threads
            (omega (arith, next), ApartFrom-next segment s.write_offset s.records d.inside)
            (λ u. ThreadIn-le s (reserved t s) (s.threads u) le refl (d.threads_in u));
      threads_apart =
          put-apart t (placed s.write_offset) s.threads
            (λ v ne. PlacesApart-next (s.threads v) s (d.threads_in v)) d.threads_apart;
    }

-- Less room is asked for.
fewer-IsDisjoint :
    (segment more : ℕ) (s : SharedWriter)
    → IsDisjoint segment (suc more) s
    → IsDisjoint segment more s
fewer-IsDisjoint segment more s d = record {
  mapped = d.mapped;
  room = omega (arith, d.room);
  small = d.small;
  inside = d.inside;
  apart = d.apart;
  threads_in = d.threads_in;
  threads_apart = d.threads_apart;
}

pub call-IsDisjoint :
    (segment more t : ℕ) (a : Appender) (s : SharedWriter)
    → s.threads t ≡ a
    → IsDisjoint segment (suc more) s
    → IsDisjoint segment more (call t a s)
call-IsDisjoint segment more t outside s e d =
    let fits : is_past_end s.write_offset s ≡ false = ground (arith, d.room, d.small) in
    simp fits (reserved-IsDisjoint segment more t s d)
call-IsDisjoint segment more t past_end s e d = absurd (subst (ThreadIn s) e (d.threads_in t))
call-IsDisjoint segment more t locked s e d = absurd (subst (ThreadIn s) e (d.threads_in t))
call-IsDisjoint segment more t opening s e d = absurd (subst (ThreadIn s) e (d.threads_in t))
call-IsDisjoint segment more t storing s e d = absurd (subst (ThreadIn s) e (d.threads_in t))
call-IsDisjoint segment more t rechecked s e d = absurd (subst (ThreadIn s) e (d.threads_in t))
call-IsDisjoint segment more t (placed i) s e d = fewer-IsDisjoint segment more s d

-- A thread writes at its place.
abbrev pub written : ℕ → ℕ → ℕ → SharedWriter → SharedWriter
written t i segment s =
    let seq = add64 s.sequence_counter 1 in
    record s {
      sequence_counter = seq;
      records =
          record { segment = segment; offset = i; sequence_num = seq; thread = t } ∷ s.records;
      threads = put t outside s.threads;
    }

-- The other threads are apart from the record that is written.
ThreadIn-written :
    (t i segment : ℕ) (s : SharedWriter) (a : Appender)
    → PlacesApart (some i) (place a)
    → ThreadIn s a
    → ThreadIn (written t i segment s) a
ThreadIn-written t i segment s outside p h = tt
ThreadIn-written t i segment s (placed j) p (le, h) = (le, (Apart-sym i j p, h))
ThreadIn-written t i segment s past_end p h = h
ThreadIn-written t i segment s locked p h = h
ThreadIn-written t i segment s opening p h = h
ThreadIn-written t i segment s storing p h = h
ThreadIn-written t i segment s rechecked p h = h

written-IsDisjoint :
    (segment more t i : ℕ) (s : SharedWriter)
    → s.threads t ≡ placed i
    → IsDisjoint segment more s
    → IsDisjoint segment more (written t i segment s)
written-IsDisjoint segment more t i s e d =
    let (le, apart) = subst (ThreadIn s) e (d.threads_in t) in
    record {
      mapped = d.mapped;
      room = d.room;
      small = d.small;
      inside = (refl, le, d.inside);
      apart = (apart, d.apart);
      threads_in = λ u. elim (ℕ_discrete u t) [
        | yes same ↦
            subst (ThreadIn (written t i segment s))
              (sym (ap (put t outside s.threads) same ∙ put_same t outside s.threads)) tt
        | no other ↦
            subst (ThreadIn (written t i segment s)) (sym (put_other t u outside s.threads other)) (
              ThreadIn-written t i segment s (s.threads u)
                (subst (λ a. PlacesApart (place a) (place (s.threads u))) e
                  (d.threads_apart t u (λ h. other (sym h))))
                (d.threads_in u))
      ];
      threads_apart = put-apart t outside s.threads (λ v ne. tt) d.threads_apart;
    }

-- What is left behind.
abbrev pub StaysDisjoint : ℕ → ℕ → Option SharedWriter → Type 0
StaysDisjoint segment more none = ⊥
StaysDisjoint segment more (some s) = IsDisjoint segment more s

pub go_on-IsDisjoint :
    (segment more t : ℕ) (opens : Bool) (a : Appender) (s : SharedWriter)
    → s.threads t ≡ a
    → IsDisjoint segment more s
    → StaysDisjoint segment more (go_on t opens a s)
go_on-IsDisjoint segment more t opens outside s e d = d
go_on-IsDisjoint segment more t opens past_end s e d =
    absurd (subst (ThreadIn s) e (d.threads_in t))
go_on-IsDisjoint segment more t opens locked s e d = absurd (subst (ThreadIn s) e (d.threads_in t))
go_on-IsDisjoint segment more t opens opening s e d = absurd (subst (ThreadIn s) e (d.threads_in t))
go_on-IsDisjoint segment more t opens storing s e d = absurd (subst (ThreadIn s) e (d.threads_in t))
go_on-IsDisjoint segment more t opens rechecked s e d =
    absurd (subst (ThreadIn s) e (d.threads_in t))
go_on-IsDisjoint segment more t opens (placed i) s e d =
    subst (λ m. StaysDisjoint segment more (write t i m s)) (sym d.mapped)
      (written-IsDisjoint segment more t i s e d)
