-- ===== src/Interner/RoundTrip.antt =====
-- What is interned is resolved again.
use ume.Prelude.{
  ℕ, ◌+◌, ◌%◌, ◌^◌, ◌≤◌, ◌<◌, ◌≡◌, refl, sym, ap, ap₂, ◌∙◌, ◌≢◌, ◌⊎◌, inl, inr, false, some, List,
  [], ◌∷◌, ◌++◌, map, append_assoc, append-nil, arith, ltb, ne→==, Option-cases, length, get_elem?,
  drop, length-append, get_elem?-last, drop-append,
}
use ume.Interner.{
  View, StringInterner, new_interner, find, c_string, add_string, found_or_added, intern, resolve,
  intern_all, add_handle, and_then,
}
use ume.Interner.Arena.{Holds, Entries, IsInterner, find-Holds, Grows, Entries-Grows, Holds-Grows}

Grows-refl : (s : StringInterner) → Grows s s
Grows-refl s = record {
  bytes = [];
  slots = [];
  arena = sym (append-nil s.arena);
  offsets = sym (append-nil s.offsets);
}

Entries-append :
    (s : StringInterner) (m n : List (View × ℕ)) → Entries s m → Entries s n → Entries s (m ++ n)
Entries-append s [] n h g = g
Entries-append s (x ∷ m) n (p, h) g = (p, Entries-append s m n h g)

-- A new text is held under its handle.
module _ (grow : ℕ → ℕ) (str : List ℕ) (s : StringInterner) (h : IsInterner s)
    (small : length s.arena + length str + 1 < 2 ^ 32) where
  after : StringInterner
  after = (add_string grow str s).1

  add_string-Grows : Grows s after
  unfolding after
  add_string-Grows = record {
    bytes = str ++ 0 ∷ [];
    slots = length s.arena % 2 ^ 32 ∷ [];
    arena = append_assoc s.arena str (0 ∷ []);
    offsets = refl;
  }

  offset_fits : length s.arena % 2 ^ 32 ≡ length s.arena
  offset_fits = omega arith

  handle_fits : length s.offsets % 2 ^ 32 ≡ length s.offsets
  handle_fits = omega (arith, h.bounded)

  add_string-Holds : Holds after (add_string grow str s).0 str
  unfolding after
  add_string-Holds = record {
    offset = length s.arena;
    rest = [];
    at =
        ap₂ (λ v i. get_elem? (s.offsets ++ v ∷ []) i) offset_fits handle_fits
        ∙ get_elem?-last s.offsets (length s.arena);
    low = omega (arith, length-append (s.arena ++ str) (0 ∷ []), length-append s.arena str);
    there =
        ap (drop (length s.arena)) (append_assoc s.arena str (0 ∷ []))
        ∙ drop-append s.arena (str ++ 0 ∷ []);
    positive = λ e. omega (arith, h.bounded, h.handles, e);
  }

  add_string-IsInterner : IsInterner after
  unfolding after add_string-Holds
  add_string-IsInterner = record {
    entries =
        Entries-append after s.map _ (Entries-Grows s after s.map add_string-Grows h.entries)
          ((str, (add_string-Holds, (offset_fits, refl))), tt);
    handles = omega (arith, length-append s.offsets (length s.arena % 2 ^ 32 ∷ []));
    bounded = omega (
      arith,
      h.bounded,
      length-append s.offsets (length s.arena % 2 ^ 32 ∷ []),
      length-append (s.arena ++ str) (0 ∷ []),
      length-append s.arena str,
    );
  }

-- The bytes that texts take, each with its terminator.
abbrev pub bytes : List (List ℕ) → ℕ
bytes [] = 0
bytes (str ∷ rest) = length str + 1 + bytes rest

-- No byte is zero.
abbrev pub NulFree : List ℕ → Type 0
NulFree [] = Unit {0}
NulFree (c ∷ cs) = (c ≢ 0) × NulFree cs

abbrev pub AllNulFree : List (List ℕ) → Type 0
AllNulFree [] = Unit {0}
AllNulFree (str ∷ rest) = NulFree str × AllNulFree rest

c_string-text : (str rest : List ℕ) → NulFree str → c_string (str ++ 0 ∷ rest) ≡ str
c_string-text [] rest h = refl
c_string-text (c ∷ cs) rest (ne, h) = simp (ne→== c 0 ne) (ap (◌∷◌ c) (c_string-text cs rest h))

-- The empty text has the handle 0, and any other is held.
Interned : StringInterner → ℕ → List ℕ → Type 0
Interned s h str = ((h ≡ 0) × (str ≡ [])) ⊎ Holds s h str

resolve-Interned :
    (s : StringInterner) (h : ℕ) (str : List ℕ) → NulFree str → Interned s h str → resolve h s ≡ str
unfolding resolve Interned
resolve-Interned s h str free (inl (zero_handle, none_there)) = simp zero_handle (sym none_there)
resolve-Interned s h str free (inr held) =
    simp (ne→== h 0 held.positive, held.at, held.there) (c_string-text str held.rest free)

Answers : (ℕ → ℕ) → List ℕ → StringInterner → Type 0
Answers grow str s =
    (h : ℕ) × ((s' : StringInterner) × ((intern grow str s ≡ some (h, s'))
        × Interned s' h str
        × Grows s s'
        × IsInterner s'
        × (s'.capacity ≡ s.capacity)
        × (length s'.arena ≤ length s.arena + length str + 1)))

intern-Answers :
    (grow : ℕ → ℕ) (str : List ℕ) (s : StringInterner)
    → IsInterner s
    → length s.arena + length str + 1 ≤ s.capacity
    → s.capacity < 2 ^ 32
    → Answers grow str s
unfolding intern Answers Interned after
intern-Answers grow [] s h room small =
    (0, (s, (refl, inl (refl, refl), Grows-refl s, h, refl, omega arith)))
intern-Answers grow (c ∷ cs) s h room small = elim (Option-cases (find (c ∷ cs) s.arena s.map)) [
  | inl absent ↦
      let fits : ltb s.capacity (length s.arena + length (c ∷ cs) + 1) ≡ false = ground arith in
      let low : length s.arena + length (c ∷ cs) + 1 < 2 ^ 32 = omega arith in
      let first : ltb s.capacity (length s.arena + length (c ∷ cs)) ≡ false = ground arith in
      let second : ltb s.capacity (length (s.arena ++ c ∷ cs) + 1) ≡ false =
        ground (arith, length-append s.arena (c ∷ cs)) in
      let capacity_stays : (add_string grow (c ∷ cs) s).1.capacity ≡ s.capacity =
        simp (first, second) refl in
      (
        (add_string grow (c ∷ cs) s).0,
        (
          (add_string grow (c ∷ cs) s).1,
          (
            simp (absent, fits) refl,
            inr (add_string-Holds grow (c ∷ cs) s h low),
            add_string-Grows grow (c ∷ cs) s h low,
            add_string-IsInterner grow (c ∷ cs) s h low,
            capacity_stays,
            omega
                (arith, length-append (s.arena ++ c ∷ cs) (0 ∷ []), length-append s.arena (c ∷ cs)),
          ),
        ),
      )
  | inr (k, there) ↦ (
    k,
    (
      s,
      (
        ap (found_or_added grow (c ∷ cs) s) there,
        inr (find-Holds s (c ∷ cs) s.map k h.entries there),
        Grows-refl s,
        h,
        refl,
        omega arith,
      ),
    ),
  )
]

Grows-trans : (s s' s'' : StringInterner) → Grows s s' → Grows s' s'' → Grows s s''
Grows-trans s s' s'' g h = record {
  bytes = g.bytes ++ h.bytes;
  slots = g.slots ++ h.slots;
  arena = h.arena ∙ ap (λ l. l ++ h.bytes) g.arena ∙ append_assoc s.arena g.bytes h.bytes;
  offsets = h.offsets ∙ ap (λ l. l ++ h.slots) g.offsets ∙ append_assoc s.offsets g.slots h.slots;
}

Interned-Grows :
    (s s' : StringInterner) (h : ℕ) (str : List ℕ)
    → Grows s s'
    → Interned s h str
    → Interned s' h str
unfolding Interned
Interned-Grows s s' h str g (inl none_there) = inl none_there
Interned-Grows s s' h str g (inr held) = inr (Holds-Grows s s' h str g held)

AnswersAll : (ℕ → ℕ) → List (List ℕ) → StringInterner → Type 0
AnswersAll grow strs s =
    (hs : List ℕ) × ((s' : StringInterner) × ((intern_all grow strs s ≡ some (hs, s'))
        × Grows s s'
        × (map (λ h. resolve h s') hs ≡ strs)))

intern_all-Answers :
    (grow : ℕ → ℕ) (strs : List (List ℕ)) (s : StringInterner)
    → IsInterner s
    → length s.arena + bytes strs ≤ s.capacity
    → s.capacity < 2 ^ 32
    → AllNulFree strs
    → AnswersAll grow strs s
unfolding intern_all AnswersAll Answers
intern_all-Answers grow [] s h room small free = ([], (s, (refl, Grows-refl s, refl)))
intern_all-Answers grow (str ∷ rest) s h room small (f, free) =
    let (k, (s1, (e, held, g, h1, cap, le))) = intern-Answers grow str s h (omega arith) small in
    let (hs, (s2, (e2, g2, back))) =
      intern_all-Answers grow rest s1 h1 (omega arith) (omega arith) free in
    (
      k ∷ hs,
      (
        s2,
        (
          ap (and_then (intern_all grow rest)) e ∙ ap (add_handle k) e2,
          Grows-trans s s1 s2 g g2,
          ap₂ ◌∷◌ (resolve-Interned s2 k str f (Interned-Grows s1 s2 k str g2 held)) back,
        ),
      ),
    )

new_interner-IsInterner : (capacity : ℕ) → IsInterner (new_interner capacity)
new_interner-IsInterner capacity = record {
  entries = tt;
  handles = omega arith;
  bounded = omega arith;
}

-- Any texts without a zero byte, whose bytes and terminators fit into the initial capacity, below
-- `2 ^ 32`: interned one after the other they all get a handle, and at the end every handle
-- resolves to its text, repeated and empty texts included.
pub intern_all-resolve :
    (grow : ℕ → ℕ) (strs : List (List ℕ)) (capacity : ℕ)
    → bytes strs ≤ capacity
    → capacity < 2 ^ 32
    → AllNulFree strs
    → (hs : List ℕ) × ((s : StringInterner) × ((intern_all grow strs (new_interner capacity)
            ≡ some (hs, s))
          × (map (λ h. resolve h s) hs ≡ strs)))
unfolding AnswersAll
intern_all-resolve grow strs capacity room small free =
    let (hs, (s, (e, _, back))) =
      intern_all-Answers grow strs (new_interner capacity) (new_interner-IsInterner capacity)
        (omega arith) small free in
    (hs, (s, (e, back)))
