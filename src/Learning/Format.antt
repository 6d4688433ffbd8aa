-- ===== src/Learning/Format.antt =====
-- `FilePatternRepository` of core/src/event/pattern_learning.cpp: a line of text for each pattern.
-- A text is a list of bytes. How the streams write numbers and how `std::stoull` and its kin read
-- them are parameters; a reader that throws has no number. A file that was opened takes all that is
-- written.
use ume.Prelude.{ℕ, ◌%◌, ◌^◌, Bool, Option, none, some, List, [], ◌∷◌, ◌++◌, ◌==◌, if◌then◌else◌}
use ume.Floating.{Doubles}
use ume.Status.{Result, ok, err, file_not_found}
use ume.Learning.{MemoryPattern}

abbrev pub Text : Type 0
Text = List ℕ

abbrev pub comma : ℕ
comma = 44

abbrev pub newline : ℕ
newline = 10

-- The library's conversions between numbers and texts. A reader answers `none` where it throws.
pub record Numbers (d : Doubles) : Type 0 where
  pub show_uint64 : ℕ → Text
  pub show_int64 : ℕ → Text
  pub show_uint32 : ℕ → Text
  pub show_double : d.Double → Text
  pub stoull : Text → Option ℕ
  pub stoll : Text → Option ℕ
  pub stoul : Text → Option ℕ
  pub stod : Text → Option d.Double

-- `std::getline` until it fails: the texts between the separators, the last one only if it is not
-- empty.
abbrev pub with_first : ℕ → List Text → List Text
with_first c [] = (c ∷ []) ∷ []
with_first c (t ∷ ts) = (c ∷ t) ∷ ts

abbrev pub getlines : ℕ → Text → List Text
getlines sep [] = []
getlines sep (c ∷ s) =
    let rest = getlines sep s in if c == sep then [] ∷ rest else with_first c rest

-- What becomes of a line: it is passed over, an exception leaves a function that may not throw, or
-- it holds a value.
pub data Line {ℓ} (A : Type ℓ) : Type ℓ where
  skipped : Line A
  terminates : Line A
  holds : A → Line A

-- A field of a line: the next text, read, for what follows.
abbrev pub read_or_terminate {ℓ κ} : {A : Type ℓ} {B : Type κ} → Option A → (A → Line B) → Line B
read_or_terminate none k = terminates
read_or_terminate (some a) k = k a

abbrev pub field {ℓ κ} :
    {A : Type ℓ} {B : Type κ} → (Text → Option A) → List Text → (A → List Text → Line B) → Line B
field read [] k = skipped
field read (t ∷ ts) k = read_or_terminate (read t) (λ a. k a ts)

-- Fields with a comma behind each but the last.
abbrev pub separated : List Text → Text
separated [] = []
separated (t ∷ []) = t
separated (t ∷ u ∷ ts) = t ++ comma ∷ separated (u ∷ ts)

module _ (d : Doubles) (numbers : Numbers d) where
  -- The part of the loop of `load_patterns` that reads one line.
  unfoldable pub load_line : List Text → Line (MemoryPattern d)
  load_line parts = field numbers.stoull parts (λ object_id parts.
      field numbers.stod parts (λ frequency_score parts.
        field numbers.stod parts (λ recency_score parts.
          field numbers.stoll parts (λ last_stride parts.
            field numbers.stod parts (λ confidence parts.
              field numbers.stoull parts (λ last_address parts.
                field numbers.stoul parts (λ access_count parts. holds (record {
                  object_id = object_id;
                  frequency_score = frequency_score;
                  recency_score = recency_score;
                  last_stride = last_stride;
                  confidence = confidence;
                  last_address = last_address;
                  access_count = access_count % 2 ^ 32;
                  last_seen = 0;
                }))))))))

  -- The loop of `load_patterns`; `none` is the end of the process.
  abbrev pub with_line :
      Line (MemoryPattern d) → Option (List (MemoryPattern d)) → Option (List (MemoryPattern d))
  with_line skipped rest = rest
  with_line terminates rest = none
  with_line (holds p) none = none
  with_line (holds p) (some ps) = some (p ∷ ps)

  abbrev pub load_lines : List Text → Option (List (MemoryPattern d))
  load_lines [] = some []
  load_lines (line ∷ lines) = with_line (load_line (getlines comma line)) (load_lines lines)

  abbrev pub loaded : Option (List (MemoryPattern d)) → Option (Result (List (MemoryPattern d)))
  loaded none = none
  loaded (some ps) = some (ok ps)

  -- `none` for a file that cannot be opened.
  abbrev pub load_patterns : Option Text → Option (Result (List (MemoryPattern d)))
  load_patterns none = some (err file_not_found)
  load_patterns (some text) = loaded (load_lines (getlines newline text))

  unfoldable pub save_line : MemoryPattern d → Text
  save_line p = separated (
      numbers.show_uint64 p.object_id
      ∷ numbers.show_double p.frequency_score
      ∷ numbers.show_double p.recency_score
      ∷ numbers.show_int64 p.last_stride
      ∷ numbers.show_double p.confidence
      ∷ numbers.show_uint64 p.last_address
      ∷ numbers.show_uint32 p.access_count
      ∷ [])

  abbrev pub save_lines : List (MemoryPattern d) → Text
  save_lines [] = []
  save_lines (p ∷ ps) = save_line p ++ newline ∷ save_lines ps

  -- What is answered, and the file afterwards; `opens` says whether the file can be opened for
  -- writing.
  unfoldable pub save_patterns :
      Bool → List (MemoryPattern d) → Option Text → Result (Unit {0}) × Option Text
  save_patterns opens patterns file =
      if opens then (ok tt, some (save_lines patterns)) else (err file_not_found, file)
