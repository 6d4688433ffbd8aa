-- ===== src/Journal/Drain/Ahead.antt =====
-- A reader inside a sound segment, with sound segments behind it.
use ume.Prelude.{
  ℕ, add64, ◌+◌, ◌*◌, ◌^◌, ◌≤◌, ◌<◌, ◌≡◌, refl, sym, ap, subst, ◌∙◌, true, none, some, List, [],
  ◌∷◌, ◌++◌, arith, length, get_elem?, lookup,
}
use ume.Status.{ok}
use ume.Journal.File.{File}
use ume.Journal.Disk.{Os, Disk, all_succeed, mapped_file}
use ume.Journal.Reader.{
  Reader, check_segment, load_current_segment, continues, after_load, next_segment,
}
use ume.Journal.Drain.Kept.{Found}
use ume.Journal.Drain.Rounds.{Slot, Slots, AllEvents, entered, load_sound}

-- The segments behind the index `i`, with the records of each, up to the end of the paths.
abbrev pub Follows : Os → Disk → List ℕ → ℕ → List (List Slot) → Type 0
Follows os disk paths i [] = get_elem? paths i ≡ none
Follows os disk paths i (rs ∷ segs) =
    (record {
      id : ℕ;
      file : File;
      path : get_elem? paths i ≡ some id;
      found : lookup id disk ≡ some file;
      good : os id ≡ all_succeed;
      small : file.size < 2 ^ 63;
      sound : check_segment file ≡ true;
      records : Slots file 64 rs;
      room : 64 + 160 * length rs ≤ file.size;
      widths : AllEvents rs;
    })
    × Follows os disk paths (i + 1) segs

-- A reader inside a segment that has `rs` left, with `segs` behind it.
pub record Stream (os : Os) (disk : Disk) (r : Reader) (rs : List Slot) (segs : List (List Slot))
    : Type 0 where
  pub file : File
  pub opened : r.is_open ≡ true
  pub mapped : mapped_file r.current_mmap disk ≡ file
  pub records : Slots file r.current_offset rs
  pub room : r.current_offset + 160 * length rs ≤ file.size
  pub small : file.size < 2 ^ 63
  pub widths : AllEvents rs
  pub follows : Follows os disk r.segment_paths (r.current_segment_index + 1) segs

-- What is found in the records.
abbrev pub found : List Slot → List Found
found [] = []
found (((seq, e), damaged) ∷ rs) = (e, damaged) ∷ found rs

abbrev pub found_of : List (List Slot) → List Found
found_of [] = []
found_of (rs ∷ segs) = found rs ++ found_of segs

-- Loading a sound segment leaves the reader in front of its records.
pub load_next :
    (os : Os) (disk : Disk) (r : Reader) (rs : List Slot) (segs : List (List Slot))
    → Follows os disk r.segment_paths r.current_segment_index (rs ∷ segs)
    → (id : ℕ) × (load_current_segment os disk r ≡ (ok tt, entered id r))
      × Stream os disk (entered id r) rs segs
load_next os disk r rs segs (here, rest) = (
  here.id,
  load_sound os disk r here.id here.file here.path here.found here.good (omega (arith, here.room))
      here.sound,
  record {
    file = here.file;
    opened = refl;
    mapped = ground (arith, here.found);
    records = here.records;
    room = here.room;
    small = here.small;
    widths = here.widths;
    follows = rest;
  },
)

pub next_sound :
    (os : Os) (disk : Disk) (r : Reader) (rs : List Slot) (segs : List (List Slot))
    → Follows os disk r.segment_paths (r.current_segment_index + 1) (rs ∷ segs)
    → (id : ℕ) × (next_segment os disk r
        ≡ continues (entered id (record r { current_segment_index = r.current_segment_index + 1 })))
      × Stream os disk
          (entered id (record r { current_segment_index = r.current_segment_index + 1 }))
          rs
          segs
unfolding next_segment
next_sound os disk r rs segs follows =
    let (id, loads, stream) =
      load_next os disk (record r { current_segment_index = r.current_segment_index + 1 }) rs segs
        follows in
    (id, ap after_load loads, stream)

-- What is left on a stream.
abbrev pub left : List Slot → List (List Slot) → List Found
left rs segs = found rs ++ found_of segs

-- A stream behind its first record.
pub behind :
    (os : Os) (disk : Disk) (r r' : Reader) (x : Slot) (rs : List Slot) (segs : List (List Slot))
    → r'.is_open ≡ r.is_open
    → r'.current_mmap ≡ r.current_mmap
    → r'.current_offset ≡ add64 r.current_offset 160
    → r'.segment_paths ≡ r.segment_paths
    → r'.current_segment_index ≡ r.current_segment_index
    → Stream os disk r (x ∷ rs) segs
    → Stream os disk r' rs segs
behind os disk r r' ((seq, e), damaged) rs segs opened mapped offset paths index s = record {
  file = s.file;
  opened = opened ∙ s.opened;
  mapped = ap (λ m. mapped_file m disk) mapped ∙ s.mapped;
  records = subst (λ k. Slots s.file k rs) (omega (arith, s.room, s.small, offset)) s.records.1;
  room = omega (arith, s.room, s.small, offset);
  small = s.small;
  widths = s.widths.1;
  follows =
      subst (λ p. Follows os disk p (r'.current_segment_index + 1) segs) (sym paths)
        (subst (λ i. Follows os disk r.segment_paths (i + 1) segs) (sym index) s.follows);
}
