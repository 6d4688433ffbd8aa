-- ===== src/Learning.antt =====
-- core/include/ume/event/pattern_learning.h and core/src/event/pattern_learning.cpp: what is
-- learned of each object, the default policy and `PatternLearningEngine`. The policy and the
-- repository are interfaces, so a learning step and what a load answers are parameters, and so are
-- the readings of the clock. Every operation holds the mutex throughout. An address and a stride
-- are words of 64 bits; the subtraction of two addresses wraps around. An object without an
-- identifier has the number 0.
pub mod Format
pub mod RoundTrip
pub mod Decay
pub mod Invariant
pub mod Confidence
mod Tests
use ume.Prelude.{
  ℕ, zero, suc, ◌+◌, ◌-◌, ◌*◌, ◌/◌, ◌%◌, ◌^◌, ◌≤◌, ◌<◌, min, max, bit_and, bit_or, bit_xor, ◌≡◌,
  refl, sym, ap, ap₂, subst, ◌∙◌, ◌≢◌, ◌↔◌, ◌⊎◌, inl, inr, Bool, true, false, not, ◌&&◌, ◌||◌,
  Option, none, some, List, [], ◌∷◌, ◌++◌, map, append_assoc, append-nil, arith, dec_lt, dec_le,
  ℕ_discrete, ltb, leb, ◌==◌, if◌then◌else◌, ltb→lt, lt→ltb, le→ltb, ==_iff, ==_refl, ne→==,
  Bool-cases, Option-cases, add64, add32, sub64, length, get_or, get_elem?, set, take, drop,
  replicate, filter, all, length-append, length-filter-le, filter-append, lookup, insert, erase,
  Fresh, IsMap, total, lookup-insert, lookup-Fresh, Fresh-lookup, lookup-erase, insert-IsMap,
  Fresh-erase, erase-IsMap, total-insert_fresh, total-erase, total-insert_old, length-insert_fresh,
  put, put_same, put_other, get_elem?-append, get_elem?-last, drop-append_le, take_exact,
  drop-append, take-append,
}
use ume.Floating.{Doubles, least, greatest}
use ume.Status.{Status, Result, ok, err, not_found}

pub record MemoryPattern (d : Doubles) : Type 0 where
  pub object_id : ℕ
  pub frequency_score : d.Double
  pub recency_score : d.Double
  pub last_stride : ℕ
  pub confidence : d.Double
  pub last_address : ℕ
  pub access_count : ℕ
  pub last_seen : ℕ

pub record LearningMetrics : Type 0 where
  pub learned_patterns_count : ℕ
  pub active_patterns_count : ℕ
  pub forgotten_patterns_count : ℕ
  pub learning_passes : ℕ
  pub total_learning_latency_ns : ℕ

abbrev pub no_learning_metrics : LearningMetrics
no_learning_metrics = record {
  learned_patterns_count = 0;
  active_patterns_count = 0;
  forgotten_patterns_count = 0;
  learning_passes = 0;
  total_learning_latency_ns = 0;
}

pub record PatternLearningEngine (d : Doubles) : Type 0 where
  pub pattern_db : List (ℕ × MemoryPattern d)
  pub metrics : LearningMetrics

module _ (d : Doubles) where
  -- The default member initialisers.
  abbrev pub new_pattern : MemoryPattern d
  new_pattern = record {
    object_id = 0;
    frequency_score = d.of_nat 0;
    recency_score = d.of_nat 0;
    last_stride = 0;
    confidence = d.fraction 5 10;
    last_address = 0;
    access_count = 0;
    last_seen = 0;
  }

  abbrev pub new_learning_engine : PatternLearningEngine d
  new_learning_engine = record { pattern_db = []; metrics = no_learning_metrics }

  -- The confidence and the stride after an access.
  abbrev pub learn_stride : ℕ → MemoryPattern d → MemoryPattern d
  learn_stride access_address p =
      let stride = sub64 access_address p.last_address in
      if p.last_address == 0
      then p
      else if stride == p.last_stride
      then record p { confidence = least d (d.of_nat 1) (d.plus p.confidence (d.fraction 1 10)) }
      else record p {
        confidence = greatest d (d.of_nat 0) (d.minus p.confidence (d.fraction 5 100));
        last_stride = stride;
      }

  -- `DefaultLearningPolicy::learn_step`.
  unfoldable pub learn_step : MemoryPattern d → ℕ → ℕ → MemoryPattern d
  learn_step pattern access_address now =
      let strided =
        learn_stride access_address
          (record pattern { access_count = add32 pattern.access_count 1; last_seen = now }) in
      record strided {
        last_address = access_address;
        frequency_score =
            d.plus (d.times pattern.frequency_score (d.fraction 9 10)) (d.fraction 1 10);
        recency_score = d.of_nat 1;
      }

  -- `pattern_db_[raw_id]`: a key that is missing has the pattern of the default member
  -- initialisers.
  abbrev pub pattern_or_new : Option (MemoryPattern d) → MemoryPattern d
  pattern_or_new none = new_pattern
  pattern_or_new (some p) = p

  -- A pattern without an object is new: it gets the object, and is counted.
  abbrev pub named : ℕ → MemoryPattern d → MemoryPattern d
  named object_id p = if p.object_id == 0 then record p { object_id = object_id } else p

  -- `policy` is the step of the policy; `start` and `end` are what the clock reads.
  unfoldable pub learn_access :
      (MemoryPattern d → ℕ → ℕ → MemoryPattern d)
      → ℕ
      → ℕ
      → ℕ
      → ℕ
      → PatternLearningEngine d
      → PatternLearningEngine d
  learn_access policy start end object_id address e =
      let pattern = pattern_or_new (lookup object_id e.pattern_db) in
      let db = insert object_id (policy (named object_id pattern) address start) e.pattern_db in
      record {
        pattern_db = db;
        metrics = record (e.metrics) {
          learned_patterns_count =
              if pattern.object_id == 0
              then add64 e.metrics.learned_patterns_count 1
              else e.metrics.learned_patterns_count;
          active_patterns_count = length db % 2 ^ 64;
          learning_passes = add64 e.metrics.learning_passes 1;
          total_learning_latency_ns = add64 e.metrics.total_learning_latency_ns (sub64 end start);
        };
      }

  abbrev pub pattern_found : Option (MemoryPattern d) → Result (MemoryPattern d)
  pattern_found none = err not_found
  pattern_found (some p) = ok p

  unfoldable pub get_pattern : ℕ → PatternLearningEngine d → Result (MemoryPattern d)
  get_pattern object_id e = pattern_found (lookup object_id e.pattern_db)

  unfoldable pub active_patterns : PatternLearningEngine d → List (MemoryPattern d)
  active_patterns e = map (λ entry. entry.1) e.pattern_db

  -- `save` is the repository's `save_patterns` on the path.
  abbrev pub persist {ℓ} : {A : Type ℓ} → (List (MemoryPattern d) → A) → PatternLearningEngine d → A
  persist save e = save (active_patterns e)

  -- The loop of `restore` over the patterns of the repository.
  abbrev pub store_all :
      List (MemoryPattern d) → List (ℕ × MemoryPattern d) → List (ℕ × MemoryPattern d)
  store_all [] db = db
  store_all (p ∷ ps) db = store_all ps (insert p.object_id p db)

  -- What `restore` does with the answer of the repository.
  abbrev pub restore :
      Result (List (MemoryPattern d))
      → PatternLearningEngine d
      → Result (Unit {0}) × PatternLearningEngine d
  restore (err s) e = (err s, e)
  restore (ok ps) e =
      let db = store_all ps e.pattern_db in
      (
        ok tt,
        record {
          pattern_db = db;
          metrics = record (e.metrics) {
            learned_patterns_count = length db % 2 ^ 64;
            active_patterns_count = length db % 2 ^ 64;
          };
        },
      )

  -- One pattern decays.
  abbrev pub decayed : d.Double → MemoryPattern d → MemoryPattern d
  decayed decay_factor p = record p {
    confidence = greatest d (d.of_nat 0) (d.minus p.confidence decay_factor);
    recency_score = greatest d (d.of_nat 0) (d.minus p.recency_score decay_factor);
  }

  -- A pattern that is forgotten.
  abbrev pub is_faded : MemoryPattern d → Bool
  is_faded p = d.less p.confidence (d.fraction 1 10) && d.less p.recency_score (d.fraction 1 10)

  -- The loop of `decay_patterns`: the database, and how many patterns are forgotten.
  abbrev pub decay_all : d.Double → List (ℕ × MemoryPattern d) → ℕ → List (ℕ × MemoryPattern d) × ℕ
  decay_all decay_factor [] forgotten = ([], forgotten)
  decay_all decay_factor ((k, p) ∷ db) forgotten =
      let faded = is_faded (decayed decay_factor p) in
      let rest = decay_all decay_factor db (if faded then add64 forgotten 1 else forgotten) in
      if faded then rest else ((k, decayed decay_factor p) ∷ rest.0, rest.1)

  unfoldable pub decay_patterns : d.Double → PatternLearningEngine d → PatternLearningEngine d
  decay_patterns decay_factor e =
      let (db, forgotten) =
        decay_all decay_factor e.pattern_db e.metrics.forgotten_patterns_count in
      record {
        pattern_db = db;
        metrics = record (e.metrics) {
          forgotten_patterns_count = forgotten;
          active_patterns_count = length db % 2 ^ 64;
        };
      }

  abbrev pub reset : PatternLearningEngine d → PatternLearningEngine d
  reset e = new_learning_engine
