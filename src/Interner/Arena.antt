-- ===== src/Interner/Arena.antt =====
-- What the arena, the offsets and the map hold.
use ume.Prelude.{
  ℕ, ◌+◌, ◌≤◌, ◌≡◌, refl, sym, ap, ap₂, subst, ◌∙◌, ◌≢◌, inl, inr, true, some, List, [], ◌∷◌, ◌++◌,
  append_assoc, arith, ◌==◌, ==_iff, Bool-cases, length, get_elem?, take, drop, length-append,
  get_elem?-append, drop-append_le, take-append,
}
use ume.Interner.{View, StringInterner, same_text, text_of, find}

-- The arena has the text with its terminator at the offset of the handle.
pub record Holds (s : StringInterner) (h : ℕ) (str : List ℕ) : Type 0 where
  pub offset : ℕ
  pub rest : List ℕ
  pub at : get_elem? s.offsets h ≡ some offset
  pub low : offset ≤ length s.arena
  pub there : drop offset s.arena ≡ str ++ 0 ∷ rest
  pub positive : h ≢ 0

-- A view of the text where it is held.
abbrev pub Shows : {s : StringInterner} {h : ℕ} {str : List ℕ} → Holds s h str → View → Type 0
Shows {str} held v = (v.offset ≡ held.offset) × (v.len ≡ length str)

-- An entry of the map shows a text that is held under its handle.
abbrev pub Entries : StringInterner → List (View × ℕ) → Type 0
Entries s [] = Unit {0}
Entries s ((v, h) ∷ rest) =
    ((text : List ℕ) × ((held : Holds s h text) × Shows held v)) × Entries s rest

pub record IsInterner (s : StringInterner) : Type 0 where
  pub entries : Entries s s.map
  pub handles : 1 ≤ length s.offsets
  pub bounded : length s.offsets ≤ length s.arena + 1

same_text-eq : (a b : List ℕ) → same_text a b ≡ true → a ≡ b
same_text-eq [] [] h = refl
same_text-eq [] (y ∷ ys) h = ground arith
same_text-eq (x ∷ xs) [] h = ground arith
same_text-eq (x ∷ xs) (y ∷ ys) h = elim (Bool-cases (x == y)) [
  | inl same ↦ ap₂ ◌∷◌ ((==_iff x y).0 same) (same_text-eq xs ys (ground arith))
  | inr other ↦ ground arith
]

Shows-text :
    (s : StringInterner) (h : ℕ) (str : List ℕ) (held : Holds s h str) (v : View)
    → Shows held v
    → text_of s.arena v ≡ str
Shows-text s h str held v (at, long) =
    ap₂ (λ n o. take n (drop o s.arena)) long at
    ∙ ap (take (length str)) held.there
    ∙ take-append str (0 ∷ held.rest)

-- A text that is found is held.
pub find-Holds :
    (s : StringInterner) (str : List ℕ) (m : List (View × ℕ)) (h : ℕ)
    → Entries s m
    → find str s.arena m ≡ some h
    → Holds s h str
find-Holds s str [] h e f = ground arith
find-Holds s str ((v, k) ∷ rest) h ((text, (held, shown)), more) f =
    elim (Bool-cases (same_text (text_of s.arena v) str)) [
      | inl same ↦
          let e : text ≡ str =
            sym (Shows-text s k text held v shown) ∙ same_text-eq (text_of s.arena v) str same in
          let k_is_h : k ≡ h = ground arith in
          subst (λ n. Holds s n str) k_is_h (subst (Holds s k) e held)
      | inr other ↦ find-Holds s str rest h more (ground arith)
    ]

-- The interner with more behind what it has.
pub record Grows (s s' : StringInterner) : Type 0 where
  pub bytes : List ℕ
  pub slots : List ℕ
  pub arena : s'.arena ≡ s.arena ++ bytes
  pub offsets : s'.offsets ≡ s.offsets ++ slots

pub Holds-Grows :
    (s s' : StringInterner) (h : ℕ) (str : List ℕ) → Grows s s' → Holds s h str → Holds s' h str
Holds-Grows s s' h str g held = record {
  offset = held.offset;
  rest = held.rest ++ g.bytes;
  at = ap (λ l. get_elem? l h) g.offsets ∙ get_elem?-append s.offsets g.slots h held.offset held.at;
  low = omega (arith, held.low, ap length g.arena, length-append s.arena g.bytes);
  there =
      ap (drop held.offset) g.arena
      ∙ drop-append_le held.offset s.arena g.bytes held.low
      ∙ ap (λ l. l ++ g.bytes) held.there
      ∙ append_assoc str (0 ∷ held.rest) g.bytes;
  positive = held.positive;
}

pub Entries-Grows :
    (s s' : StringInterner) (m : List (View × ℕ)) → Grows s s' → Entries s m → Entries s' m
unfolding Holds-Grows
Entries-Grows s s' [] g h = tt
Entries-Grows s s' ((v, k) ∷ rest) g ((text, (held, shown)), more) =
    ((text, (Holds-Grows s s' k text g held, shown)), Entries-Grows s s' rest g more)
