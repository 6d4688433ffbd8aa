-- ===== src/Journal/Appends.antt =====
-- `JournalWriter::append` of core/src/event/journal_writer.cpp by threads that interleave, on a
-- writer that is open. Only places are modelled: what is written there is in Journal.Writer. A step
-- is an access to what the threads share; the number and the bytes of a record are one step.
pub mod Places
pub mod Disjoint
pub mod Steps
pub mod Complete
mod Tests
use ume.Prelude.{
  ℕ, zero, suc, ◌+◌, ◌-◌, ◌*◌, ◌/◌, ◌%◌, ◌^◌, ◌≤◌, ◌<◌, min, max, bit_and, bit_or, bit_xor, ◌≡◌,
  refl, sym, ap, ap₂, subst, ◌∙◌, ◌≢◌, ◌↔◌, ◌⊎◌, inl, inr, Bool, true, false, not, ◌&&◌, ◌||◌,
  Option, none, some, List, [], ◌∷◌, ◌++◌, map, append_assoc, append-nil, arith, dec_lt, dec_le,
  ℕ_discrete, ltb, leb, ◌==◌, if◌then◌else◌, ltb→lt, lt→ltb, le→ltb, ==_iff, ==_refl, ne→==,
  Bool-cases, Option-cases, add64, add32, sub64, length, get_or, get_elem?, set, take, drop,
  replicate, filter, all, length-append, length-filter-le, filter-append, lookup, insert, erase,
  Fresh, IsMap, total, lookup-insert, lookup-Fresh, Fresh-lookup, lookup-erase, insert-IsMap,
  Fresh-insert, Fresh-erase, erase-IsMap, total-insert_fresh, total-erase, total-insert_old,
  length-insert_fresh, put, put_same, put_other, get_elem?-append, get_elem?-last, drop-append_le,
  take_exact, drop-append, take-append,
}
use ume.Journal.Format.{sizeof_segment_header, record_bytes}

-- Where a thread is in `append`.
pub data Appender : Type 0 where
  outside past_end locked opening storing rechecked : Appender
  placed : (offset : ℕ) → Appender

-- A record that was written: in which segment, where, and by whom.
pub record Record : Type 0 where
  pub segment : ℕ
  pub offset : ℕ
  pub sequence_num : ℕ
  pub thread : ℕ

-- The writer, with the holder of its lock, the records written, the latest first, and the threads.
pub record SharedWriter : Type 0 where
  pub segment_size_bytes : ℕ
  pub current_segment_id : ℕ
  pub current_mmap : Option ℕ
  pub write_offset : ℕ
  pub sequence_counter : ℕ
  pub lock_holder : Option ℕ
  pub records : List Record
  pub threads : ℕ → Appender

-- A thread makes a call, or goes on with one; `opens` is whether a new segment can be mapped.
pub data Action : Type 0 where
  calls : (t : ℕ) → Action
  goes_on : (t : ℕ) → (opens : Bool) → Action

-- The test for a rollover.
abbrev pub is_past_end : ℕ → SharedWriter → Bool
is_past_end offset s = ltb s.segment_size_bytes (add64 offset record_bytes)

-- `fetch_add` with the test behind it.
abbrev pub call : ℕ → Appender → SharedWriter → SharedWriter
call t outside s = record s {
  write_offset = add64 s.write_offset record_bytes;
  threads =
      put t (if is_past_end s.write_offset s then past_end else placed s.write_offset) s.threads;
}
call t past_end s = s
call t locked s = s
call t opening s = s
call t storing s = s
call t rechecked s = s
call t (placed offset) s = s

-- The lock is taken when it is free.
abbrev pub take_lock : ℕ → Option ℕ → SharedWriter → SharedWriter
take_lock t none s = record s { lock_holder = some t; threads = put t locked s.threads }
take_lock t (some holder) s = s

-- A store where nothing is mapped ends the process.
abbrev pub write : ℕ → ℕ → Option ℕ → SharedWriter → Option SharedWriter
write t offset none s = none
write t offset (some segment) s =
    let seq = add64 s.sequence_counter 1 in
    some (record s {
      sequence_counter = seq;
      records =
          record { segment = segment; offset = offset; sequence_num = seq; thread = t } ∷ s.records;
      threads = put t outside s.threads;
    })

-- The steps behind the first one. A rollover closes the mapping, maps the next segment, and stores
-- the offset.
abbrev pub go_on : ℕ → Bool → Appender → SharedWriter → Option SharedWriter
go_on t opens outside s = some s
go_on t opens past_end s = some (take_lock t s.lock_holder s)
go_on t opens locked s = some (
    if is_past_end s.write_offset s
    then record s {
      current_segment_id = add64 s.current_segment_id 1;
      current_mmap = none;
      threads = put t opening s.threads;
    }
    else record s { threads = put t rechecked s.threads })
go_on t opens opening s = some (
    if opens
    then record s { current_mmap = some s.current_segment_id; threads = put t storing s.threads }
    else record s { lock_holder = none; threads = put t outside s.threads })
go_on t opens storing s =
    some (record s { write_offset = sizeof_segment_header; threads = put t rechecked s.threads })
go_on t opens rechecked s = some (record s {
  write_offset = add64 s.write_offset record_bytes;
  lock_holder = none;
  threads = put t (placed s.write_offset) s.threads;
})
go_on t opens (placed offset) s = write t offset s.current_mmap s

abbrev pub act : Action → SharedWriter → Option SharedWriter
act (calls t) s = some (call t (s.threads t) s)
act (goes_on t opens) s = go_on t opens (s.threads t) s

abbrev pub act_all : List Action → Option SharedWriter → Option SharedWriter
act_all actions none = none
act_all [] (some s) = some s
act_all (a ∷ actions) (some s) = act_all actions (act a s)
