-- ===== src/Journal/Appends/Complete.antt =====
-- Every append that goes on writes its record.
use ume.Prelude.{
  ℕ, ◌+◌, ◌≡◌, refl, ap, subst, ◌∙◌, Bool, not, ◌&&◌, Option, some, List, [], ◌∷◌, arith, ◌==◌,
  if◌then◌else◌,
}
use ume.Journal.Appends.{
  Appender, outside, past_end, locked, opening, storing, rechecked, placed, SharedWriter, Action,
  calls, goes_on, call, write, go_on, act_all,
}
use ume.Journal.Appends.Places.{place, ThreadIn}
use ume.Journal.Appends.Disjoint.{
  calls_in, IsDisjoint, StaysDisjoint, call-IsDisjoint, go_on-IsDisjoint, written,
}
use ume.Journal.Appends.Steps.{
  has_place, records_by, completed, Steps, call-Steps, outside-Steps, written-Steps,
}

-- A step is counted with those behind it.
count-Steps :
    (t n more : ℕ) (begun : Bool) (actions : List Action) (s s' : SharedWriter)
    → Steps t s s' more begun
    → n ≡ records_by t s'.records + completed t actions (has_place (place (s'.threads t)))
    → n ≡ records_by t s.records + (more + completed t actions begun)
count-Steps t n more begun actions s s' step h =
    let now : n ≡ records_by t s'.records + completed t actions begun =
      h ∙ ap (λ b. records_by t s'.records + completed t actions b) step.begins in
    omega (arith, now, step.written)

-- What a step of a thread leaves behind.
abbrev Goes : ℕ → ℕ → ℕ → SharedWriter → Option SharedWriter → Type 0
Goes segment more u s o =
    (s' : SharedWriter) × (o ≡ some s')
    × IsDisjoint segment more s'
    × ((t : ℕ)
        → Steps t s s' (if has_place (place (s.threads t)) && u == t then 1 else 0)
            (has_place (place (s.threads t)) && not (u == t)))

go_on-Goes :
    (segment more u : ℕ) (opens : Bool) (a : Appender) (s : SharedWriter)
    → s.threads u ≡ a
    → IsDisjoint segment more s
    → Goes segment more u s (go_on u opens a s)
go_on-Goes segment more u opens outside s e d = (s, refl, d, λ t. outside-Steps t u s e)
go_on-Goes segment more u opens past_end s e d = absurd (subst (ThreadIn s) e (d.threads_in u))
go_on-Goes segment more u opens locked s e d = absurd (subst (ThreadIn s) e (d.threads_in u))
go_on-Goes segment more u opens opening s e d = absurd (subst (ThreadIn s) e (d.threads_in u))
go_on-Goes segment more u opens storing s e d = absurd (subst (ThreadIn s) e (d.threads_in u))
go_on-Goes segment more u opens rechecked s e d = absurd (subst (ThreadIn s) e (d.threads_in u))
go_on-Goes segment more u opens (placed i) s e d =
    let done : go_on u opens (placed i) s ≡ some (written u i segment s) =
      ap (λ m. write u i m s) d.mapped in
    (
      written u i segment s,
      done,
      subst (StaysDisjoint segment more) done
          (go_on-IsDisjoint segment more u opens (placed i) s e d),
      λ t. written-Steps segment t u i s e,
    )

-- What all the actions leave behind.
abbrev pub Completes : ℕ → List Action → SharedWriter → Type 0
Completes segment actions s =
    (s' : SharedWriter) × (act_all actions (some s) ≡ some s')
    × IsDisjoint segment 0 s'
    × ((t : ℕ)
        → records_by t s'.records
          ≡ records_by t s.records + completed t actions (has_place (place (s.threads t))))

-- However threads interleave their calls of append on an open writer, from a state where none rolls
-- over, and no records overlap that are written or have their place: where the segment that is
-- mapped, of fewer than 2 ^ 64 bytes, has room for a record for each call, the process does not
-- end, every thread has written one record for each call that it went on with, no two of the
-- records overlap, and every one lies within that segment.
pub act_all-Completes :
    (segment : ℕ) (actions : List Action) (s : SharedWriter)
    → IsDisjoint segment (calls_in actions) s
    → Completes segment actions s
act_all-Completes segment [] s d = (s, refl, d, λ t. omega arith)
act_all-Completes segment (calls u ∷ actions) s d =
    let (s', done, left, counts) =
      act_all-Completes segment actions (call u (s.threads u) s)
        (call-IsDisjoint segment (calls_in actions) u (s.threads u) s refl d) in
    (
      s',
      done,
      left,
      λ t. ground (
        arith,
        count-Steps t _ 0 _ actions s _
            (call-Steps segment (calls_in actions) t u (s.threads u) s refl d) (counts t),
      ),
    )
act_all-Completes segment (goes_on u opens ∷ actions) s d =
    let (s₁, first, d₁, steps) =
      go_on-Goes segment (calls_in actions) u opens (s.threads u) s refl d in
    let (s', done, left, counts) = act_all-Completes segment actions s₁ d₁ in
    (
      s',
      ap (act_all actions) first ∙ done,
      left,
      λ t. count-Steps t _ _ _ actions s s₁ (steps t) (counts t),
    )
