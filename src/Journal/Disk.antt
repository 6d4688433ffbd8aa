-- ===== src/Journal/Disk.antt =====
-- The journal directory and `platform::MmapFile` (core/src/platform/mmap.cpp, the POSIX branch). A
-- file is named by its segment number. A shared mapping writes through to its file, so a mapping is
-- the name of the file that it maps. What the system calls answer is a parameter of the model.
use ume.Prelude.{ℕ, List, Option, none, some, ltb, ◌==◌, if◌then◌else◌, lookup, insert, min}
use ume.Status.{Status, k_ok, file_not_found, io_error, out_of_memory}
use ume.Journal.File.{File}

-- How `open`, `ftruncate` or `fstat`, and `mmap` answer.
pub data SystemCalls : Type 0 where
  open_fails resize_fails map_fails all_succeed : SystemCalls

-- The answers for each file.
abbrev pub Os : Type 0
Os = ℕ → SystemCalls

abbrev pub Disk : Type 0
Disk = List (ℕ × File)

abbrev pub empty_file : File
empty_file = record { size = 0; byte = λ i. 0 }

-- `open` with O_CREAT.
abbrev pub file_or_empty : Option File → File
file_or_empty none = empty_file
file_or_empty (some f) = f

-- `ftruncate`: the file is cut, or grows by zeros.
abbrev pub resize : ℕ → File → File
resize n f = record { size = n; byte = λ i. if ltb i (min n f.size) then f.byte i else 0 }

-- `MmapFile::open_read_write`: the status, what is mapped afterwards, and the files.
unfoldable pub open_read_write : Os → ℕ → ℕ → Disk → Status × Option ℕ × Disk
open_read_write os id size disk =
    let f = file_or_empty (lookup id disk) in
    elim (os id) [
      | open_fails ↦ (file_not_found, none, disk)
      | resize_fails ↦ (io_error, none, insert id f disk)
      | map_fails ↦ (out_of_memory, none, insert id (resize size f) disk)
      | all_succeed ↦ (k_ok, some id, insert id (resize size f) disk)
    ]

-- `MmapFile::open_read_only`. A file of size 0 cannot be mapped.
unfoldable pub open_read_only : Os → ℕ → Disk → Status × Option ℕ
open_read_only os id disk = elim (lookup id disk) [
  | none ↦ (file_not_found, none)
  | some f ↦ elim (os id) [
    | open_fails ↦ (file_not_found, none)
    | resize_fails ↦ (io_error, none)
    | map_fails ↦ (out_of_memory, none)
    | all_succeed ↦ if f.size == 0 then (out_of_memory, none) else (k_ok, some id)
  ]
]

-- The mapped file: its bytes, and `MmapFile::size`, which is 0 when nothing is mapped.
abbrev pub mapped_file : Option ℕ → Disk → File
mapped_file none disk = empty_file
mapped_file (some id) disk = file_or_empty (lookup id disk)

-- A store through the mapping.
abbrev pub store : Option ℕ → File → Disk → Disk
store none f disk = disk
store (some id) f disk = insert id f disk
