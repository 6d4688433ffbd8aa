-- ===== src/Learning/Tests.antt =====
-- Doubles in thousandths; a number is written as one character, and a double loses its last digit.
use ume.Prelude.{
  ℕ, ◌+◌, ◌-◌, ◌*◌, ◌/◌, ◌≡◌, refl, ap, true, Option, none, some, List, [], ◌∷◌, arith, lookup,
}
use ume.Floating.Samples.{thousandths}
use ume.Status.{ok}
use ume.Learning.{
  MemoryPattern, PatternLearningEngine, new_learning_engine, persist, restore, get_pattern,
  pattern_found,
}
use ume.Learning.Format.{Text, Numbers, save_patterns, load_patterns}
use ume.Learning.RoundTrip.{IsField, IsFaithful, Rereads, AllReread, saved_or, restore-persist}
use ume.Learning.Invariant.{
  Operation, accesses, decays, run, IsSound, AllOperationsInRange, run-IsSound,
}
use ume.Learning.Confidence.{HasBounds, AllWithin, run-AllWithin}

abbrev one_character : ℕ → Text
one_character n = (n + 48) ∷ []

abbrev read_character : Text → Option ℕ
read_character [] = none
read_character (c ∷ s) = some (c - 48)

abbrev rounded : ℕ → ℕ
rounded x = x / 10 * 10

abbrev numbers : Numbers thousandths
numbers = record {
  show_uint64 = one_character;
  show_int64 = one_character;
  show_uint32 = one_character;
  show_double = λ x. one_character (rounded x);
  stoull = read_character;
  stoll = read_character;
  stoul = read_character;
  stod = read_character;
}

one_character-IsField : (n : ℕ) → IsField (one_character n)
one_character-IsField n = ((λ h. ground arith), (omega arith, tt), (omega arith, tt))

read-one_character : (n : ℕ) → read_character (one_character n) ≡ some n
read-one_character n = ap some (omega arith)

numbers-IsFaithful : IsFaithful thousandths numbers
numbers-IsFaithful = record {
  uint64-IsField = one_character-IsField;
  int64-IsField = one_character-IsField;
  uint32-IsField = one_character-IsField;
  double-IsField = λ x. one_character-IsField (rounded x);
  stoull-show = λ n h. read-one_character n;
  stoll-show = λ n h. read-one_character n;
  stoul-show = λ n h. read-one_character n;
}

thousandths-HasBounds : HasBounds thousandths
thousandths-HasBounds = record {
  less_irrefl = λ a. ground arith;
  less_asymm = λ a b h. ground arith;
  one_zero = refl;
  half_zero = refl;
  one_half = refl;
  twentieth_zero = refl;
  plus_tenth = λ a h. ground arith;
  minus_least = λ a b h g. ground arith;
}

-- Two objects, the first of which is accessed twice, and a decay by 0.25.
abbrev operations : List (Operation thousandths)
operations = accesses 10 20 7 4096 ∷ accesses 30 40 7 4160 ∷ accesses 50 60 9 512 ∷ decays 1250 ∷ []

operations-InRange : AllOperationsInRange operations
operations-InRange = (
  (omega arith, omega arith),
  ((omega arith, omega arith), ((omega arith, omega arith), (tt, tt))),
)

abbrev engine : PatternLearningEngine thousandths
engine = run thousandths operations (new_learning_engine thousandths)

run-IsSound_example : IsSound engine.pattern_db
run-IsSound_example =
    run-IsSound thousandths operations (new_learning_engine thousandths) operations-InRange tt

run-AllWithin_example : AllWithin thousandths engine.pattern_db
run-AllWithin_example =
    run-AllWithin thousandths thousandths-HasBounds operations (new_learning_engine thousandths)
      (refl, tt) tt

engine-IsSound : IsSound engine.pattern_db
engine-IsSound =
    run-IsSound thousandths operations (new_learning_engine thousandths) operations-InRange tt

rereads : (p : MemoryPattern thousandths) → Rereads thousandths numbers rounded p
rereads p = (
  read-one_character (rounded p.frequency_score),
  read-one_character (rounded p.recency_score),
  read-one_character (rounded p.confidence),
)

all_reread : (db : List (ℕ × MemoryPattern thousandths)) → AllReread thousandths numbers rounded db
all_reread [] = tt
all_reread ((k, p) ∷ db) = (rereads p, all_reread db)

engine-AllReread : AllReread thousandths numbers rounded engine.pattern_db
engine-AllReread = all_reread engine.pattern_db

abbrev empty : PatternLearningEngine thousandths
empty = new_learning_engine thousandths

restore-persist_example :
    let (saved, written) =
      persist thousandths (λ ps. save_patterns thousandths numbers true ps none) engine in
    (saved ≡ ok tt)
    × ((ps : List (MemoryPattern thousandths)) × (load_patterns thousandths numbers written
          ≡ some (ok ps))
        × ((restore thousandths (ok ps) empty).0 ≡ ok tt)
        × ((k : ℕ)
            → get_pattern thousandths k (restore thousandths (ok ps) empty).1
              ≡ pattern_found thousandths
                  (saved_or {d = thousandths} rounded (lookup k engine.pattern_db) none)))
restore-persist_example =
    restore-persist thousandths numbers rounded numbers-IsFaithful engine empty none engine-IsSound
      engine-AllReread
