-- ===== src/Journal/Appends/Places.antt =====
-- The places of threads and of records.
use ume.Prelude.{
  ℕ, ◌+◌, ◌≤◌, ◌≡◌, sym, ap, subst, ◌∙◌, ◌≢◌, ◌⊎◌, inl, inr, Option, none, some, List, [], ◌∷◌,
  arith, ℕ_discrete, put, put_same, put_other,
}
use ume.Journal.Format.{record_bytes}
use ume.Journal.Appends.{
  Appender, outside, past_end, locked, opening, storing, rechecked, placed, Record, SharedWriter,
}

-- Two places for a record do not overlap.
abbrev pub Apart : ℕ → ℕ → Type 0
Apart i j = (i + record_bytes ≤ j) ⊎ (j + record_bytes ≤ i)

-- A place behind all records of a list or before them, and all records apart from each other.
abbrev pub ApartFrom : ℕ → List Record → Type 0
ApartFrom i [] = Unit {0}
ApartFrom i (r ∷ rs) = Apart i r.offset × ApartFrom i rs

abbrev pub AllApart : List Record → Type 0
AllApart [] = Unit {0}
AllApart (r ∷ rs) = ApartFrom r.offset rs × AllApart rs

-- Every record is in a segment and ends before a bound.
abbrev pub AllIn : ℕ → ℕ → List Record → Type 0
AllIn segment bound [] = Unit {0}
AllIn segment bound (r ∷ rs) =
    (r.segment ≡ segment) × (r.offset + record_bytes ≤ bound) × AllIn segment bound rs

-- A thread is outside or has a place of its own, in front of the offset that is next.
abbrev pub ThreadIn : SharedWriter → Appender → Type 0
ThreadIn s outside = Unit {0}
ThreadIn s (placed i) = (i + record_bytes ≤ s.write_offset) × ApartFrom i s.records
ThreadIn s past_end = ⊥
ThreadIn s locked = ⊥
ThreadIn s opening = ⊥
ThreadIn s storing = ⊥
ThreadIn s rechecked = ⊥

abbrev pub place : Appender → Option ℕ
place outside = none
place past_end = none
place locked = none
place opening = none
place storing = none
place rechecked = none
place (placed offset) = some offset

abbrev pub PlacesApart : Option ℕ → Option ℕ → Type 0
PlacesApart none q = Unit {0}
PlacesApart (some i) none = Unit {0}
PlacesApart (some i) (some j) = Apart i j

pub AllIn-le :
    (segment b b' : ℕ) (rs : List Record) → b ≤ b' → AllIn segment b rs → AllIn segment b' rs
AllIn-le segment b b' [] h i = tt
AllIn-le segment b b' (r ∷ rs) h (e, le, i) = (e, omega arith, AllIn-le segment b b' rs h i)

-- The next place is behind all records.
pub ApartFrom-next : (segment b : ℕ) (rs : List Record) → AllIn segment b rs → ApartFrom b rs
ApartFrom-next segment b [] i = tt
ApartFrom-next segment b (r ∷ rs) (e, le, i) = (inr le, ApartFrom-next segment b rs i)

pub Apart-sym : (i j : ℕ) → Apart i j → Apart j i
Apart-sym i j (inl h) = inr h
Apart-sym i j (inr h) = inl h

PlacesApart-none : (p : Option ℕ) → PlacesApart p none
PlacesApart-none none = tt
PlacesApart-none (some i) = tt

PlacesApart-sym : (p q : Option ℕ) → PlacesApart p q → PlacesApart q p
PlacesApart-sym none q h = PlacesApart-none q
PlacesApart-sym (some i) none h = tt
PlacesApart-sym (some i) (some j) h = Apart-sym i j h

-- A thread with the next place is apart from all that have one.
pub PlacesApart-next :
    (a : Appender) (s : SharedWriter) → ThreadIn s a → PlacesApart (some s.write_offset) (place a)
PlacesApart-next outside s h = tt
PlacesApart-next past_end s h = tt
PlacesApart-next locked s h = tt
PlacesApart-next opening s h = tt
PlacesApart-next storing s h = tt
PlacesApart-next rechecked s h = tt
PlacesApart-next (placed i) s (le, h) = inr le

-- One thread moves, and is apart from all others there.
pub put-apart :
    (t : ℕ) (a : Appender) (threads : ℕ → Appender)
    → ((v : ℕ) → v ≢ t → PlacesApart (place a) (place (threads v)))
    → ((u v : ℕ) → u ≢ v → PlacesApart (place (threads u)) (place (threads v)))
    → (u v : ℕ) → u ≢ v
    → PlacesApart (place (put t a threads u)) (place (put t a threads v))
put-apart t a threads new old u v ne = elim (ℕ_discrete u t) [
  | yes same ↦
      let other : v ≢ t = λ e. ne (same ∙ sym e) in
      subst (λ x. PlacesApart (place x) (place (put t a threads v)))
        (sym (ap (put t a threads) same ∙ put_same t a threads))
        (subst (λ x. PlacesApart (place a) (place x)) (sym (put_other t v a threads other))
          (new v other))
  | no apart ↦ elim (ℕ_discrete v t) [
    | yes same ↦
        subst (λ x. PlacesApart (place (put t a threads u)) (place x))
          (sym (ap (put t a threads) same ∙ put_same t a threads))
          (subst (λ x. PlacesApart (place x) (place a)) (sym (put_other t u a threads apart))
            (PlacesApart-sym (place a) (place (threads u)) (new u apart)))
    | no apart' ↦
        subst (λ x. PlacesApart (place x) (place (put t a threads v)))
          (sym (put_other t u a threads apart))
          (subst (λ x. PlacesApart (place (threads u)) (place x))
            (sym (put_other t v a threads apart')) (old u v ne))
  ]
]

-- What holds of every thread holds when one of them moves to where it holds.
pub put-all :
    (P : Appender → Type 0) (t : ℕ) (a : Appender) (threads : ℕ → Appender)
    → P a
    → ((u : ℕ) → P (threads u))
    → (u : ℕ) → P (put t a threads u)
put-all P t a threads h hs u = elim (ℕ_discrete u t) [
  | yes same ↦ subst P (sym (ap (put t a threads) same ∙ put_same t a threads)) h
  | no apart ↦ subst P (sym (put_other t u a threads apart)) (hs u)
]
