-- ===== src/Mmap.antt =====
-- `MmapFile` of core/src/platform/mmap.cpp (the POSIX branch) as the holder of a file descriptor
-- and of a mapping. What the system calls answer is a parameter; what is asked of the system is
-- kept as a log. What the files hold is modelled in Journal.Disk.
pub mod Moves
pub mod Resources
mod Tests
use ume.Prelude.{
  ℕ, zero, suc, ◌+◌, ◌-◌, ◌*◌, ◌/◌, ◌%◌, ◌^◌, ◌≤◌, ◌<◌, min, max, bit_and, bit_or, bit_xor, ◌≡◌,
  refl, sym, ap, ap₂, subst, ◌∙◌, ◌≢◌, ◌↔◌, ◌⊎◌, inl, inr, Bool, true, false, not, ◌&&◌, ◌||◌,
  Option, none, some, List, [], ◌∷◌, ◌++◌, map, append_assoc, append-nil, arith, dec_lt, dec_le,
  ℕ_discrete, ltb, leb, ◌==◌, if◌then◌else◌, ltb→lt, lt→ltb, le→ltb, ==_iff, ==_refl, ne→==,
  Bool-cases, Option-cases, add64, add32, sub64, length, get_or, get_elem?, set, take, drop,
  replicate, filter, all, length-append, length-filter-le, filter-append, lookup, insert, erase,
  Fresh, IsMap, total, lookup-insert, lookup-Fresh, Fresh-lookup, lookup-erase, insert-IsMap,
  Fresh-insert, Fresh-erase, erase-IsMap, total-insert_fresh, total-erase, total-insert_old,
  length-insert_fresh, put, put_same, put_other, get_elem?-append, get_elem?-last, drop-append_le,
  take_exact, drop-append, take-append,
}
use ume.Status.{Status, k_ok, file_not_found, io_error, out_of_memory}

pub record MmapFile : Type 0 where
  pub data_address : Option ℕ
  pub file_size : ℕ
  pub fd : Option ℕ

-- The descriptors that `open` gave and those passed to `close`; the addresses that `mmap` gave and
-- those passed to `munmap`. The latest is the first.
pub record Log : Type 0 where
  pub opened : List ℕ
  pub closed : List ℕ
  pub mapped : List ℕ
  pub unmapped : List ℕ

abbrev pub no_file : MmapFile
no_file = record { data_address = none; file_size = 0; fd = none }

abbrev pub is_mapped : MmapFile → Bool
is_mapped f = elim f.data_address [ none ↦ false | some a ↦ true ]

-- How `open`, then `ftruncate` or `fstat`, then `mmap` answer, with what they give.
pub data Answers : Type 0 where
  open_fails : Answers
  size_fails : (fd : ℕ) → Answers
  map_fails : (fd : ℕ) → Answers
  succeed : (fd address : ℕ) → Answers

abbrev pub with_closed : Option ℕ → Log → Log
with_closed none log = log
with_closed (some fd) log = record log { closed = fd ∷ log.closed }

abbrev pub close_mapped : Option ℕ → MmapFile → Log → MmapFile × Log
close_mapped none f log = (f, log)
close_mapped (some address) f log =
    (no_file, with_closed f.fd (record log { unmapped = address ∷ log.unmapped }))

-- `close`, which is also the destructor.
unfoldable pub close : MmapFile → Log → MmapFile × Log
close f log = close_mapped f.data_address f log

-- What `open_read_write` and `open_read_only` do behind `close`: `size` is what is asked for, or
-- what `fstat` answers.
abbrev pub open_answered : Answers → ℕ → MmapFile → Log → Status × MmapFile × Log
open_answered open_fails size f log = (file_not_found, f, log)
open_answered (size_fails fd) size f log =
    (io_error, f, record log { opened = fd ∷ log.opened; closed = fd ∷ log.closed })
open_answered (map_fails fd) size f log =
    (out_of_memory, f, record log { opened = fd ∷ log.opened; closed = fd ∷ log.closed })
open_answered (succeed fd address) size f log = (
  k_ok,
  record { data_address = some address; file_size = size; fd = some fd },
  record log { opened = fd ∷ log.opened; mapped = address ∷ log.mapped },
)

unfoldable pub open_file : Answers → ℕ → MmapFile → Log → Status × MmapFile × Log
open_file answers size f log = let (f', log') = close f log in open_answered answers size f' log'

-- `msync` is asked only of a file that is mapped; `synced` is what it answers.
abbrev pub flush : Bool → MmapFile → Status
flush synced f = if is_mapped f then if synced then k_ok else io_error else k_ok

-- Moving: the new content of the target and of the source.
abbrev pub move_construct : MmapFile → MmapFile × MmapFile
move_construct other = (other, no_file)

-- The assignment of another object closes the target first.
unfoldable pub move_assign : MmapFile → MmapFile → Log → MmapFile × MmapFile × Log
move_assign f other log = let (f', log') = close f log in (other, no_file, log')

-- The objects of a program, by their number, and what it asked of the system.
pub record Program : Type 0 where
  pub files : List MmapFile
  pub log : Log

pub data Operation : Type 0 where
  constructs : Operation
  opens : (i : ℕ) → Answers → (size : ℕ) → Operation
  flushes : (i : ℕ) → Bool → Operation
  closes : (i : ℕ) → Operation
  move_constructs : (i : ℕ) → Operation
  move_assigns : (i j : ℕ) → Operation

abbrev pub close_at : ℕ → Option MmapFile → Program → Program
close_at i none p = p
close_at i (some f) p =
    let (f', log') = close f p.log in record { files = set p.files i f'; log = log' }

abbrev pub open_at : ℕ → Answers → ℕ → Option MmapFile → Program → Program
open_at i answers size none p = p
open_at i answers size (some f) p =
    let (status, f', log') = open_file answers size f p.log in
    record { files = set p.files i f'; log = log' }

-- The new object stands behind the others.
abbrev pub move_construct_at : ℕ → Option MmapFile → Program → Program
move_construct_at i none p = p
move_construct_at i (some f) p =
    let (f', other) = move_construct f in record p { files = set p.files i other ++ f' ∷ [] }

abbrev pub move_assign_at : ℕ → ℕ → Option MmapFile → Option MmapFile → Program → Program
move_assign_at i j none other p = p
move_assign_at i j (some f) none p = p
move_assign_at i j (some f) (some other) p =
    let (f', other', log') = move_assign f other p.log in
    record { files = set (set p.files i f') j other'; log = log' }

-- An operation on an object that is not there changes nothing.
abbrev pub perform : Operation → Program → Program
perform constructs p = record p { files = p.files ++ no_file ∷ [] }
perform (opens i answers size) p = open_at i answers size (get_elem? p.files i) p
perform (flushes i synced) p = p
perform (closes i) p = close_at i (get_elem? p.files i) p
perform (move_constructs i) p = move_construct_at i (get_elem? p.files i) p
perform (move_assigns i j) p =
    if i == j then p else move_assign_at i j (get_elem? p.files i) (get_elem? p.files j) p

abbrev pub perform_all : List Operation → Program → Program
perform_all [] p = p
perform_all (o ∷ os) p = perform_all os (perform o p)
