-- ===== src/Journal/Paths.antt =====
-- The paths of segments: `build_segment_path` of core/src/event/journal_writer.cpp, and the order
-- in which `open_directory` of core/src/event/journal_reader.cpp sorts them. Texts are lists of
-- character codes; the directory in front is the same for all paths.
pub mod Order
mod Tests
use ume.Prelude.{
  ℕ, zero, suc, ◌+◌, ◌-◌, ◌/◌, ◌%◌, Bool, true, false, ◌&&◌, List, [], ◌∷◌, ◌++◌, if◌then◌else◌,
  ltb, ◌==◌,
}

-- A number in decimal, filled up with zeros to a width. The fuel bounds the number of digits.
abbrev pub digits : ℕ → ℕ → ℕ → List ℕ
digits zero width n = []
digits (suc fuel) width n =
    let rest = digits fuel (width - 1) (n / 10) in
    if width == 0 && n == 0 then [] else rest ++ (n % 10 + 48) ∷ []

-- A number of 64 bits has at most 20 digits.
unfoldable pub build_segment_path : ℕ → List ℕ
build_segment_path segment_id =
    115
    ∷ 101
    ∷ 103
    ∷ 109
    ∷ 101
    ∷ 110
    ∷ 116
    ∷ 95
    ∷ (digits 20 6 segment_id ++ (46 ∷ 117 ∷ 109 ∷ 101 ∷ 106 ∷ []))

-- `operator<` of `std::string`.
abbrev pub text_less : List ℕ → List ℕ → Bool
text_less [] [] = false
text_less [] (y ∷ ys) = true
text_less (x ∷ xs) [] = false
text_less (x ∷ xs) (y ∷ ys) =
    let rest = text_less xs ys in if ltb x y then true else if x == y then rest else false

-- `std::sort` on the paths, which are all different.
abbrev pub insert_path : ℕ → List ℕ → List ℕ
insert_path k [] = k ∷ []
insert_path k (j ∷ js) =
    let rest = insert_path k js in
    if text_less (build_segment_path k) (build_segment_path j) then k ∷ j ∷ js else j ∷ rest

unfoldable pub sort_paths : List ℕ → List ℕ
sort_paths [] = []
sort_paths (k ∷ ks) = insert_path k (sort_paths ks)
