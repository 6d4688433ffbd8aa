-- ===== src/Journal/Appends/Steps.antt =====
-- What a step of a thread does to the records of each thread.
use ume.Prelude.{
  ℕ, suc, ◌+◌, ◌≡◌, refl, sym, ap, subst, ◌∙◌, inl, inr, Bool, true, false, not, ◌&&◌, ◌||◌, Option,
  none, some, List, [], ◌∷◌, arith, ℕ_discrete, ◌==◌, if◌then◌else◌, ==_iff, ==_refl, ne→==,
  Bool-cases, put, put_other,
}
use ume.Journal.Appends.{
  Appender, outside, past_end, locked, opening, storing, rechecked, placed, Record, SharedWriter,
  Action, calls, goes_on, is_past_end, call,
}
use ume.Journal.Appends.Places.{place, ThreadIn}
use ume.Journal.Appends.Disjoint.{IsDisjoint, written}

-- Whether a thread has a place to write to.
abbrev pub has_place : Option ℕ → Bool
has_place none = false
has_place (some offset) = true

-- The records of a thread.
abbrev pub records_by : ℕ → List Record → ℕ
records_by t [] = 0
records_by t (r ∷ rs) = (if r.thread == t then 1 else 0) + records_by t rs

-- The calls that a thread has gone on with, the first of them being begun already or not: a call
-- begins where there is none, and ends with the next step of the thread.
abbrev pub completed : ℕ → List Action → Bool → ℕ
completed t [] begun = 0
completed t (calls u ∷ actions) begun = completed t actions (begun || u == t)
completed t (goes_on u opens ∷ actions) begun =
    (if begun && u == t then 1 else 0) + completed t actions (begun && not (u == t))

-- What a step does to a thread and its records.
pub record Steps (t : ℕ) (s s' : SharedWriter) (more : ℕ) (begun : Bool) : Type 0 where
  pub written : records_by t s'.records ≡ more + records_by t s.records
  pub begins : has_place (place (s'.threads t)) ≡ begun

-- A thread that begins now has begun.
begun : (now before : Bool) → (if now then true else before) ≡ before || now
begun true true = refl
begun true false = refl
begun false true = refl
begun false false = refl

or_false : (b : Bool) → b || false ≡ b
or_false true = refl
or_false false = refl

and_true : (b : Bool) → b && true ≡ b
and_true true = refl
and_true false = refl

and_false : (b : Bool) → b && false ≡ false
and_false true = refl
and_false false = refl

has_place-put :
    (u t : ℕ) (a : Appender) (threads : ℕ → Appender)
    → has_place (place (put u a threads t))
      ≡ (if u == t then has_place (place a) else has_place (place (threads t)))
has_place-put u t a threads = elim (ℕ_discrete u t) [
  | yes same ↦
      subst
        (λ v.
          has_place (place (put u a threads v))
          ≡ (if u == v then has_place (place a) else has_place (place (threads v))))
        same (simp (==_refl u) refl)
  | no other ↦ simp (put_other u t a threads (λ h. other (sym h)), ne→== u t other) refl
]

-- What a test of another place says of a thread in a known one.
at_thread :
    (u t : ℕ) (a : Appender) (threads : ℕ → Appender)
    → threads u ≡ a
    → (u == t) ≡ true
    → has_place (place (threads t)) ≡ has_place (place a)
at_thread u t a threads e h =
    ap (λ v. has_place (place (threads v))) (sym ((==_iff u t).0 h))
    ∙ ap (λ b. has_place (place b)) e

pub call-Steps :
    (segment more t u : ℕ) (a : Appender) (s : SharedWriter)
    → s.threads u ≡ a
    → IsDisjoint segment (suc more) s
    → Steps t s (call u a s) 0 (has_place (place (s.threads t)) || u == t)
call-Steps segment more t u outside s e d =
    let fits : is_past_end s.write_offset s ≡ false = ground (arith, d.room, d.small) in
    record {
      written = omega arith;
      begins =
          has_place-put u t _ s.threads
          ∙ simp fits (begun (u == t) (has_place (place (s.threads t))));
    }
call-Steps segment more t u past_end s e d = absurd (subst (ThreadIn s) e (d.threads_in u))
call-Steps segment more t u locked s e d = absurd (subst (ThreadIn s) e (d.threads_in u))
call-Steps segment more t u opening s e d = absurd (subst (ThreadIn s) e (d.threads_in u))
call-Steps segment more t u storing s e d = absurd (subst (ThreadIn s) e (d.threads_in u))
call-Steps segment more t u rechecked s e d = absurd (subst (ThreadIn s) e (d.threads_in u))
call-Steps segment more t u (placed i) s e d = record {
  written = omega arith;
  begins = elim (Bool-cases (u == t)) [
    | inl same ↦
        let at : has_place (place (s.threads t)) ≡ true =
          at_thread u t (placed i) s.threads e same in
        simp (same, at) refl
    | inr other ↦ simp other (sym (or_false (has_place (place (s.threads t)))))
  ];
}

-- A thread that is outside has nothing to write.
pub outside-Steps :
    (t u : ℕ) (s : SharedWriter)
    → s.threads u ≡ outside
    → Steps t s s
        (if has_place (place (s.threads t)) && u == t then 1 else 0)
        (has_place (place (s.threads t)) && not (u == t))
outside-Steps t u s e = elim (Bool-cases (u == t)) [
  | inl same ↦
      let at : has_place (place (s.threads t)) ≡ false = at_thread u t outside s.threads e same in
      simp (same, at) (record { written = omega arith; begins = at })
  | inr other ↦
      simp (other, and_false (has_place (place (s.threads t))))
        (record {
          written = omega arith;
          begins = sym (and_true (has_place (place (s.threads t))));
        })
]

pub written-Steps :
    (segment t u i : ℕ) (s : SharedWriter)
    → s.threads u ≡ placed i
    → Steps t s
        (written u i segment s)
        (if has_place (place (s.threads t)) && u == t then 1 else 0)
        (has_place (place (s.threads t)) && not (u == t))
written-Steps segment t u i s e = elim (Bool-cases (u == t)) [
  | inl same ↦
      let at : has_place (place (s.threads t)) ≡ true = at_thread u t (placed i) s.threads e same in
      record {
        written = simp (same, at) refl;
        begins = has_place-put u t outside s.threads ∙ simp (same, at) refl;
      }
  | inr other ↦ record {
    written = simp (other, and_false (has_place (place (s.threads t)))) refl;
    begins =
        has_place-put u t outside s.threads
        ∙ simp (other, and_true (has_place (place (s.threads t)))) refl;
  }
]
