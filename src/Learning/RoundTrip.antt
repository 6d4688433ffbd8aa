-- ===== src/Learning/RoundTrip.antt =====
-- Saving and loading.
use ume.Prelude.{
  ℕ, ◌%◌, ◌^◌, ◌<◌, ◌≡◌, refl, sym, ap, subst, ◌∙◌, ◌≢◌, inl, inr, true, Option, none, some, List,
  [], ◌∷◌, ◌++◌, map, arith, ◌==◌, if◌then◌else◌, ==_iff, Bool-cases, lookup, insert, Fresh,
  lookup-insert, lookup-Fresh,
}
use ume.Floating.{Doubles}
use ume.Status.{ok}
use ume.Learning.{
  MemoryPattern, PatternLearningEngine, active_patterns, persist, restore, get_pattern, store_all,
  pattern_found,
}
use ume.Learning.Invariant.{InRange, IsSound}
use ume.Learning.Format.{
  Text, comma, newline, Numbers, with_first, getlines, holds, load_line, load_lines, loaded,
  load_patterns, save_line, save_lines, save_patterns,
}

-- Neither a separator of fields nor of lines is in a text, and a text has a character.
abbrev pub Lacks : ℕ → Text → Type 0
Lacks sep [] = Unit {0}
Lacks sep (c ∷ t) = (c ≢ sep) × Lacks sep t

abbrev pub IsField : Text → Type 0
IsField t = (t ≢ []) × Lacks comma t × Lacks newline t

-- What the library documents of its conversions: a number is written without separators, a whole
-- number is read back as itself.
pub record IsFaithful (d : Doubles) (numbers : Numbers d) : Type 0 where
  pub uint64-IsField : (n : ℕ) → IsField (numbers.show_uint64 n)
  pub int64-IsField : (n : ℕ) → IsField (numbers.show_int64 n)
  pub uint32-IsField : (n : ℕ) → IsField (numbers.show_uint32 n)
  pub double-IsField : (x : d.Double) → IsField (numbers.show_double x)
  pub stoull-show : (n : ℕ) → n < 2 ^ 64 → numbers.stoull (numbers.show_uint64 n) ≡ some n
  pub stoll-show : (n : ℕ) → n < 2 ^ 64 → numbers.stoll (numbers.show_int64 n) ≡ some n
  pub stoul-show : (n : ℕ) → n < 2 ^ 32 → numbers.stoul (numbers.show_uint32 n) ≡ some n

-- The doubles of a pattern are written so that they are read, as what `reread` says: `std::stod`
-- throws on what is written of others, such as subnormal ones.
abbrev pub Rereads : (d : Doubles) → Numbers d → (d.Double → d.Double) → MemoryPattern d → Type 0
Rereads d numbers reread p =
    (numbers.stod (numbers.show_double p.frequency_score) ≡ some (reread p.frequency_score))
    × (numbers.stod (numbers.show_double p.recency_score) ≡ some (reread p.recency_score))
    × (numbers.stod (numbers.show_double p.confidence) ≡ some (reread p.confidence))

abbrev pub AllReread :
    (d : Doubles) → Numbers d → (d.Double → d.Double) → List (ℕ × MemoryPattern d) → Type 0
AllReread d numbers reread [] = Unit {0}
AllReread d numbers reread ((k, p) ∷ db) =
    Rereads d numbers reread p × AllReread d numbers reread db

Lacks-append : (sep : ℕ) (s t : Text) → Lacks sep s → Lacks sep t → Lacks sep (s ++ t)
Lacks-append sep [] t hs ht = ht
Lacks-append sep (c ∷ s) t (h, hs) ht = (h, Lacks-append sep s t hs ht)

getlines_cons :
    (sep c : ℕ) (s : Text) → c ≢ sep → getlines sep (c ∷ s) ≡ with_first c (getlines sep s)
getlines_cons sep c s h = ground arith

getlines-append :
    (sep : ℕ) (s t : Text) → Lacks sep s → getlines sep (s ++ sep ∷ t) ≡ s ∷ getlines sep t
getlines-append sep [] t h = ground arith
getlines-append sep (c ∷ s) t (h, hs) =
    getlines_cons sep c (s ++ sep ∷ t) h ∙ ap (with_first c) (getlines-append sep s t hs)

getlines_last : (sep : ℕ) (s : Text) → s ≢ [] → Lacks sep s → getlines sep s ≡ s ∷ []
getlines_last sep [] ne h = absurd (ne refl)
getlines_last sep (c ∷ []) ne (h, hs) = ground arith
getlines_last sep (c ∷ b ∷ s) ne (h, hs) =
    getlines_cons sep c (b ∷ s) h ∙ ap (with_first c) (getlines_last sep (b ∷ s) (cc) hs)

-- A field, and a line that goes on behind it.
getlines_field :
    (s t : Text) (ts : List Text)
    → IsField s
    → getlines comma t ≡ ts
    → getlines comma (s ++ comma ∷ t) ≡ s ∷ ts
getlines_field s t ts (ne, lc, ln) e = getlines-append comma s t lc ∙ ap (◌∷◌ s) e

Lacks-field : (s t : Text) → IsField s → Lacks newline t → Lacks newline (s ++ comma ∷ t)
Lacks-field s t (ne, lc, ln) h = Lacks-append newline s (comma ∷ t) ln (omega arith, h)

-- A pattern after its way through a file: the doubles as they are read again, and no time.
abbrev pub reparsed : {d : Doubles} → (d.Double → d.Double) → MemoryPattern d → MemoryPattern d
reparsed reread p = record p {
  frequency_score = reread p.frequency_score;
  recency_score = reread p.recency_score;
  confidence = reread p.confidence;
  last_seen = 0;
}

-- What an engine knows of an object after it has loaded what another has saved of it.
abbrev pub saved_or :
    {d : Doubles}
    → (d.Double → d.Double)
    → Option (MemoryPattern d)
    → Option (MemoryPattern d)
    → Option (MemoryPattern d)
saved_or reread none own = own
saved_or reread (some p) own = some (reparsed reread p)

module _ (d : Doubles) (numbers : Numbers d) (reread : d.Double → d.Double)
    (faithful : IsFaithful d numbers) where
  abbrev AllReadable : List (MemoryPattern d) → Type 0
  AllReadable [] = Unit {0}
  AllReadable (p ∷ ps) = InRange p × Rereads d numbers reread p × AllReadable ps

  line_fields : MemoryPattern d → List Text
  line_fields p =
      numbers.show_uint64 p.object_id
      ∷ numbers.show_double p.frequency_score
      ∷ numbers.show_double p.recency_score
      ∷ numbers.show_int64 p.last_stride
      ∷ numbers.show_double p.confidence
      ∷ numbers.show_uint64 p.last_address
      ∷ numbers.show_uint32 p.access_count
      ∷ []

  getlines-save_line :
      (p : MemoryPattern d) → getlines comma (save_line d numbers p) ≡ line_fields p
  unfolding save_line line_fields
  getlines-save_line p =
      let (ne, lc, ln) = faithful.uint32-IsField p.access_count in
      (getlines_field _ _ _ (faithful.uint64-IsField p.object_id) (
        getlines_field _ _ _ (faithful.double-IsField p.frequency_score) (
          getlines_field _ _ _ (faithful.double-IsField p.recency_score) (
            getlines_field _ _ _ (faithful.int64-IsField p.last_stride) (
              getlines_field _ _ _ (faithful.double-IsField p.confidence) (
                getlines_field _ _ _ (faithful.uint64-IsField p.last_address)
                  (getlines_last comma _ ne lc)))))))

  Lacks-save_line : (p : MemoryPattern d) → Lacks newline (save_line d numbers p)
  unfolding save_line
  Lacks-save_line p =
      let (ne, lc, ln) = faithful.uint32-IsField p.access_count in
      (Lacks-field _ _ (faithful.uint64-IsField p.object_id) (
        Lacks-field _ _ (faithful.double-IsField p.frequency_score) (
          Lacks-field _ _ (faithful.double-IsField p.recency_score) (
            Lacks-field _ _ (faithful.int64-IsField p.last_stride) (
              Lacks-field _ _ (faithful.double-IsField p.confidence)
                (Lacks-field _ _ (faithful.uint64-IsField p.last_address) ln))))))

  load_line-save_line :
      (p : MemoryPattern d)
      → InRange p
      → Rereads d numbers reread p
      → load_line d numbers (getlines comma (save_line d numbers p)) ≡ holds (reparsed reread p)
  unfolding load_line line_fields
  load_line-save_line p (ri, rs, ra, rc) (df, dr, dc) =
      let small : p.access_count % 2 ^ 32 ≡ p.access_count = omega arith in
      rw
        (
          getlines-save_line p,
          faithful.stoull-show p.object_id ri,
          df,
          dr,
          faithful.stoll-show p.last_stride rs,
          dc,
          faithful.stoull-show p.last_address ra,
          faithful.stoul-show p.access_count rc,
        )
        (ap (λ n. holds (record (reparsed reread p) { access_count = n })) small)

  load_lines-save_lines :
      (ps : List (MemoryPattern d))
      → AllReadable ps
      → load_lines d numbers (getlines newline (save_lines d numbers ps))
        ≡ some (map (reparsed reread) ps)
  load_lines-save_lines [] h = refl
  load_lines-save_lines (p ∷ ps) (h, g, hs) =
      rw
        (
          getlines-append newline (save_line d numbers p) (save_lines d numbers ps)
              (Lacks-save_line p),
          load_line-save_line p h g,
          load_lines-save_lines ps hs,
        )
        refl

  values : List (ℕ × MemoryPattern d) → List (MemoryPattern d)
  values db = map (λ entry. entry.1) db

  values-AllReadable :
      (db : List (ℕ × MemoryPattern d))
      → IsSound db
      → AllReread d numbers reread db
      → AllReadable (values db)
  unfolding values
  values-AllReadable [] h g = tt
  values-AllReadable ((k, p) ∷ db) (f, e, r, h) (x, g) = (r, x, values-AllReadable db h g)

  saved_or-Fresh :
      (k j : ℕ) (p : MemoryPattern d) (db own : List (ℕ × MemoryPattern d))
      → Fresh j db
      → saved_or reread (lookup k db) (if j == k then some (reparsed reread p) else lookup k own)
        ≡ saved_or reread (if j == k then some p else lookup k db) (lookup k own)
  saved_or-Fresh k j p db own f = elim (Bool-cases (j == k)) [
    | inl same ↦
        let absent : lookup k db ≡ none =
          lookup-Fresh k db (subst (λ i. Fresh i db) ((==_iff j k).0 same) f) in
        rw (same, absent) refl
    | inr other ↦ rw other refl
  ]

  lookup-store_all :
      (k : ℕ) (db own : List (ℕ × MemoryPattern d))
      → IsSound db
      → lookup k (store_all d (map (reparsed reread) (values db)) own)
        ≡ saved_or reread (lookup k db) (lookup k own)
  unfolding values
  lookup-store_all k [] own h = refl
  lookup-store_all k ((j, p) ∷ db) own (f, e, r, h) =
      lookup-store_all k db (insert p.object_id (reparsed reread p) own) h
      ∙ ap (saved_or reread (lookup k db)) (lookup-insert p.object_id k (reparsed reread p) own)
      ∙ subst
          (λ i.
            saved_or reread (lookup k db)
              (if i == k then some (reparsed reread p) else lookup k own)
            ≡ saved_or reread (if j == k then some p else lookup k db) (lookup k own))
          (sym e) (saved_or-Fresh k j p db own f)

  -- An engine persists its patterns to a file that can be opened, another restores them from it:
  -- where the engine's database is sound, the library's conversions of whole numbers are faithful,
  -- and every double of a pattern is written so that it is read, as another double perhaps, the
  -- save and the restore succeed, and the second engine then answers for every object what the
  -- first has learned of it (with the doubles as they are read again, and without the time of the
  -- last access), and of the objects that the first does not know what it knew before.
  pub restore-persist :
      (e own : PatternLearningEngine d) (file : Option Text)
      → IsSound e.pattern_db
      → AllReread d numbers reread e.pattern_db
      → let (saved, written) = persist d (λ ps. save_patterns d numbers true ps file) e in
        (saved ≡ ok tt)
        × ((ps : List (MemoryPattern d)) × (load_patterns d numbers written ≡ some (ok ps))
            × ((restore d (ok ps) own).0 ≡ ok tt)
            × ((k : ℕ)
                → get_pattern d k (restore d (ok ps) own).1
                  ≡ pattern_found d
                      (saved_or reread (lookup k e.pattern_db) (lookup k own.pattern_db))))
  unfolding save_patterns active_patterns get_pattern values
  restore-persist e own file h g = (
    refl,
    (
      map (reparsed reread) (values e.pattern_db),
      ap (loaded d numbers)
          (load_lines-save_lines (values e.pattern_db) (values-AllReadable e.pattern_db h g)),
      refl,
      λ k. ap (pattern_found d) (lookup-store_all k e.pattern_db own.pattern_db h),
    ),
  )
