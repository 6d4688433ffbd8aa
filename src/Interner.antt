-- ===== src/Interner.antt =====
-- `StringInterner` of core/src/concurrency/string_interner.cpp, one call at a time, as its mutex
-- makes it. A text is a list of bytes. The keys of the map are views into the arena; when the arena
-- moves, which is when its size passes its capacity, the views that the map holds dangle, and a
-- call that moves it under them has no answer here. `grow` is the capacity that a vector takes for
-- a size; it is a parameter.
pub mod Arena
pub mod RoundTrip
mod Tests
use ume.Prelude.{
  ℕ, ◌+◌, ◌%◌, ◌^◌, Bool, true, false, not, ◌&&◌, Option, none, some, List, [], ◌∷◌, ◌++◌, map, ltb,
  ◌==◌, if◌then◌else◌, length, get_elem?, take, drop,
}

-- A `string_view` into the arena: the offset and the length.
pub record View : Type 0 where
  pub offset : ℕ
  pub len : ℕ

pub record StringInterner : Type 0 where
  pub arena : List ℕ
  pub capacity : ℕ
  pub map : List (View × ℕ)
  pub offsets : List ℕ

-- The constructor.
abbrev pub new_interner : ℕ → StringInterner
new_interner initial_arena_capacity = record {
  arena = [];
  capacity = initial_arena_capacity;
  map = [];
  offsets = 0 ∷ [];
}

abbrev pub is_null {ℓ} : {A : Type ℓ} → List A → Bool
is_null [] = true
is_null (x ∷ xs) = false

abbrev pub same_text : List ℕ → List ℕ → Bool
same_text [] [] = true
same_text [] (y ∷ ys) = false
same_text (x ∷ xs) [] = false
same_text (x ∷ xs) (y ∷ ys) = let rest = same_text xs ys in if x == y then rest else false

-- The text that a view shows.
abbrev pub text_of : List ℕ → View → List ℕ
text_of arena v = take v.len (drop v.offset arena)

-- `map_.find`.
abbrev pub find : List ℕ → List ℕ → List (View × ℕ) → Option ℕ
find str arena [] = none
find str arena ((v, handle) ∷ rest) =
    let later = find str arena rest in
    if same_text (text_of arena v) str then some handle else later

-- `std::strlen`, in what is left of the arena.
abbrev pub c_string : List ℕ → List ℕ
c_string [] = []
c_string (c ∷ cs) = let rest = c_string cs in if c == 0 then [] else c ∷ rest

-- The arena with more bytes at its end.
abbrev pub insert_bytes : (ℕ → ℕ) → List ℕ → StringInterner → StringInterner
insert_bytes grow bytes s =
    let size = length s.arena + length bytes in
    record s {
      arena = s.arena ++ bytes;
      capacity = if ltb s.capacity size then grow size else s.capacity;
    }

-- The handle of a text that was not found, and the interner with it.
abbrev pub add_string : (ℕ → ℕ) → List ℕ → StringInterner → ℕ × StringInterner
add_string grow str s =
    let offset = length s.arena % 2 ^ 32 in
    let s' = insert_bytes grow (0 ∷ []) (insert_bytes grow str s) in
    let handle = length s.offsets % 2 ^ 32 in
    (
      handle,
      record s' {
        offsets = s.offsets ++ offset ∷ [];
        map = s.map ++ (record { offset = offset; len = length str }, handle) ∷ [];
      },
    )

abbrev pub found_or_added :
    (ℕ → ℕ) → List ℕ → StringInterner → Option ℕ → Option (ℕ × StringInterner)
found_or_added grow str s (some handle) = some (handle, s)
found_or_added grow str s none =
    if ltb s.capacity (length s.arena + length str + 1) && not (is_null s.map)
    then none
    else some (add_string grow str s)

unfoldable pub intern : (ℕ → ℕ) → List ℕ → StringInterner → Option (ℕ × StringInterner)
intern grow [] s = some (0, s)
intern grow (c ∷ cs) s = found_or_added grow (c ∷ cs) s (find (c ∷ cs) s.arena s.map)

abbrev pub string_at : List ℕ → Option ℕ → List ℕ
string_at arena none = []
string_at arena (some offset) = c_string (drop offset arena)

-- The bytes of the view that `resolve` returns.
unfoldable pub resolve : ℕ → StringInterner → List ℕ
resolve handle s = if handle == 0 then [] else string_at s.arena (get_elem? s.offsets handle)

unfoldable pub unique_string_count : StringInterner → ℕ
unique_string_count s = length s.map

unfoldable pub total_arena_bytes : StringInterner → ℕ
total_arena_bytes s = length s.arena

-- The capacity of the arena stays.
unfoldable pub clear : StringInterner → StringInterner
clear s = record s { arena = []; map = []; offsets = 0 ∷ [] }

abbrev pub add_handle : ℕ → Option (List ℕ × StringInterner) → Option (List ℕ × StringInterner)
add_handle h none = none
add_handle h (some (hs, s)) = some (h ∷ hs, s)

abbrev pub and_then :
    (StringInterner → Option (List ℕ × StringInterner))
    → Option (ℕ × StringInterner)
    → Option (List ℕ × StringInterner)
and_then k none = none
and_then k (some (h, s)) = add_handle h (k s)

-- Texts interned one after the other, with their handles.
unfoldable pub intern_all :
    (ℕ → ℕ) → List (List ℕ) → StringInterner → Option (List ℕ × StringInterner)
intern_all grow [] s = some ([], s)
intern_all grow (str ∷ rest) s = and_then (intern_all grow rest) (intern grow str s)
