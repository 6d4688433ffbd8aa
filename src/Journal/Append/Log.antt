-- ===== src/Journal/Append/Log.antt =====
-- The writer of core/src/event/journal_writer.cpp against the events recorded in each segment.
use ume.Prelude.{
  ℕ, zero, suc, ◌+◌, ◌*◌, ◌^◌, ◌≤◌, ◌<◌, ◌≡◌, refl, sym, ap₂, ◌∙◌, true, none, some, List, [], ◌∷◌,
  ◌++◌, append_assoc, arith, ◌==◌, if◌then◌else◌, length, lookup,
}
use ume.Journal.File.{File}
use ume.Journal.Disk.{Disk}
use ume.Journal.Writer.{Writer, min_segment_size}
use ume.Journal.Contents.{Entry, Segment}

-- The entries of each segment, by its number.
abbrev pub Contents : Type 0
Contents = ℕ → List Entry

abbrev pub add_entry : Contents → ℕ → Entry → Contents
add_entry c k x i = if i == k then c k ++ x ∷ [] else c i

-- The entries of the first `n` segments, in order.
unfoldable pub entries : Contents → ℕ → List Entry
entries c zero = []
entries c (suc n) = entries c n ++ c n

pub entries-suc : (c : Contents) (n : ℕ) → entries c (suc n) ≡ entries c n ++ c n
unfolding entries
entries-suc c n = refl

-- A file of the disk that holds these entries.
abbrev pub Holds : ℕ → Disk → ℕ → List Entry → Type 0
Holds size disk i rs = (f : File) × (lookup i disk ≡ some f) × Segment size f rs

-- An open writer: its segments up to the current one are on the disk, each with its entries, and no
-- later one is.
pub record Logs (w : Writer) (disk : Disk) (c : Contents) : Type 0 where
  pub opened : w.is_open ≡ true
  pub mapped : w.current_mmap ≡ some w.current_segment_id
  pub least : min_segment_size ≤ w.segment_size_bytes
  pub most : w.segment_size_bytes < 2 ^ 63
  pub offset : w.write_offset ≡ 64 + 160 * length (c w.current_segment_id)
  pub fits : w.write_offset ≤ w.segment_size_bytes
  pub held : (i : ℕ) → i ≤ w.current_segment_id → Holds w.segment_size_bytes disk i (c i)
  pub later_files : (i : ℕ) → w.current_segment_id < i → lookup i disk ≡ none
  pub later_entries : (i : ℕ) → w.current_segment_id < i → c i ≡ []

pub entries-add_below :
    (c : Contents) (k : ℕ) (x : Entry) (n : ℕ) → n ≤ k → entries (add_entry c k x) n ≡ entries c n
unfolding entries
entries-add_below c k x zero h = refl
entries-add_below c k x (suc n) h =
    ap₂ ◌++◌ (entries-add_below c k x n (omega arith)) (ground arith)

-- An entry added to the last segment comes last.
pub entries-add_entry :
    (c : Contents) (k : ℕ) (x : Entry)
    → entries (add_entry c k x) (suc k) ≡ entries c (suc k) ++ x ∷ []
unfolding entries
entries-add_entry c k x =
    ap₂ ◌++◌ (entries-add_below c k x k (omega arith)) (ground arith)
    ∙ sym (append_assoc (entries c k) (c k) (x ∷ []))
