-- ===== src/Mmap/Moves.antt =====
-- What an operation on one object does to what is held and logged.
use ume.Prelude.{
  ℕ, ◌+◌, ◌≡◌, refl, ap, Option, none, some, List, [], ◌∷◌, arith, ◌==◌, if◌then◌else◌,
}
use ume.Mmap.{
  MmapFile, Log, Answers, open_fails, size_fails, map_fails, succeed, with_closed, close_mapped,
  close, open_answered, open_file,
}

-- How often a number is in a list, and in a field.
abbrev pub count : ℕ → List ℕ → ℕ
count x [] = 0
count x (y ∷ ys) = (if x == y then 1 else 0) + count x ys

abbrev pub held : ℕ → Option ℕ → ℕ
held x none = 0
held x (some y) = if x == y then 1 else 0

abbrev pub sum_of : (MmapFile → ℕ) → List MmapFile → ℕ
sum_of w [] = 0
sum_of w (f ∷ fs) = w f + sum_of w fs

-- A file has a descriptor only with a mapping.
abbrev pub IsFile : MmapFile → Type 0
IsFile f = f.data_address ≡ none → f.fd ≡ none

abbrev pub AllFiles : List MmapFile → Type 0
AllFiles [] = Unit {0}
AllFiles (f ∷ fs) = IsFile f × AllFiles fs

-- From one file and log to another, what is held and logged of a number moves together.
pub record Moves (f : MmapFile) (log : Log) (f' : MmapFile) (log' : Log) : Type 0 where
  pub descriptors :
      (x : ℕ)
      → count x log'.opened + count x log.closed + held x f.fd
        ≡ count x log.opened + count x log'.closed + held x f'.fd
  pub mappings :
      (x : ℕ)
      → count x log'.mapped + count x log.unmapped + held x f.data_address
        ≡ count x log.mapped + count x log'.unmapped + held x f'.data_address
  pub is_file : IsFile f'

-- What the end of a descriptor adds to the log.
with_closed_lem :
    (x : ℕ) (d : Option ℕ) (log : Log)
    → let after = with_closed d log in
      (count x after.closed ≡ held x d + count x log.closed)
      × (after.opened ≡ log.opened)
      × (after.mapped ≡ log.mapped)
      × (after.unmapped ≡ log.unmapped)
with_closed_lem x none log = (omega arith, refl, refl, refl)
with_closed_lem x (some d) log = (refl, refl, refl, refl)

abbrev pub IsEmpty : MmapFile → Type 0
IsEmpty f = (f.fd ≡ none) × (f.data_address ≡ none)

close_mapped-Moves :
    (a : Option ℕ) (f : MmapFile) (log : Log)
    → f.data_address ≡ a
    → IsFile f
    → let (f', log') = close_mapped a f log in Moves f log f' log' × IsEmpty f'
close_mapped-Moves none f log ea h = (
  record { descriptors = λ x. omega arith; mappings = λ x. omega arith; is_file = h },
  (h ea, ea),
)
close_mapped-Moves (some a) f log ea h =
    let log1 = record log { unmapped = a ∷ log.unmapped } in
    (
      record {
        descriptors =
            λ x. let (c, o, m, u) = with_closed_lem x f.fd log1 in omega (arith, c, ap (count x) o);
        mappings = λ x.
            let (c, o, m, u) = with_closed_lem x f.fd log1 in
            omega (arith, ap (count x) m, ap (count x) u, ap (held x) ea);
        is_file = λ e. refl;
      },
      (refl, refl),
    )

pub close-Moves :
    (f : MmapFile) (log : Log)
    → IsFile f
    → let (f', log') = close f log in Moves f log f' log' × IsEmpty f'
unfolding close
close-Moves f log h = close_mapped-Moves f.data_address f log refl h

open_answered-Moves :
    (answers : Answers) (size : ℕ) (f : MmapFile) (log : Log)
    → IsFile f
    → IsEmpty f
    → let (status, f', log') = open_answered answers size f log in Moves f log f' log'
open_answered-Moves open_fails size f log h e = record {
  descriptors = λ x. omega arith;
  mappings = λ x. omega arith;
  is_file = h;
}
open_answered-Moves (size_fails fd) size f log h e = record {
  descriptors = λ x. omega arith;
  mappings = λ x. omega arith;
  is_file = h;
}
open_answered-Moves (map_fails fd) size f log h e = record {
  descriptors = λ x. omega arith;
  mappings = λ x. omega arith;
  is_file = h;
}
open_answered-Moves (succeed fd address) size f log h (ed, ea) = record {
  descriptors = λ x. omega (arith, ap (held x) ed);
  mappings = λ x. omega (arith, ap (held x) ea);
  is_file = λ e. absurd (ground (arith, e));
}

-- One move after another.
Moves-trans : {f g h : MmapFile} {l m n : Log} → Moves f l g m → Moves g m h n → Moves f l h n
Moves-trans p q = record {
  descriptors = λ x. omega (arith, p.descriptors x, q.descriptors x);
  mappings = λ x. omega (arith, p.mappings x, q.mappings x);
  is_file = q.is_file;
}

pub open_file-Moves :
    (answers : Answers) (size : ℕ) (f : MmapFile) (log : Log)
    → IsFile f
    → let (status, f', log') = open_file answers size f log in Moves f log f' log'
unfolding open_file
open_file-Moves answers size f log h =
    let (m, e) = close-Moves f log h in
    Moves-trans m (open_answered-Moves answers size _ _ m.is_file e)
