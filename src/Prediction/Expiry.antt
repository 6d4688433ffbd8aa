-- ===== src/Prediction/Expiry.antt =====
-- How long `PredictionEngine` of core/src/event/prediction_engine.cpp serves a prediction.
use ume.Prelude.{
  ℕ, ◌<◌, ◌≡◌, ◌≢◌, refl, sym, subst, ◌∙◌, true, Option, none, some, List, [], ◌∷◌, arith,
  ℕ_discrete, ltb, if◌then◌else◌, Bool-cases, inl, inr, lookup, insert, erase, IsMap, lookup-insert,
  lookup-erase, insert-IsMap, erase-IsMap, ne→==, ==_refl,
}
use ume.Status.{Result, ok, err}
use ume.Prediction.{Prediction, PredictionEngine, is_live, miss, found, get_prediction}

-- A call of `get_prediction`: what the clock reads, and what the predictor would answer.
pub record Request (Double : Type 0) : Type 0 where
  pub object_id : ℕ
  pub start : ℕ
  pub now : ℕ
  pub end : ℕ
  pub predicted : Result (Prediction Double)

module _ {Double : Type 0} where
  abbrev pub ask :
      Request Double
      → PredictionEngine Double
      → Result (Prediction Double) × PredictionEngine Double
  ask r e = get_prediction true r.start r.now r.end r.object_id r.predicted e

  abbrev pub ask_all : List (Request Double) → PredictionEngine Double → PredictionEngine Double
  ask_all [] e = e
  ask_all (r ∷ rs) e = ask_all rs (ask r e).1

  -- The requests for the object come before the time.
  abbrev pub AllBefore : ℕ → ℕ → List (Request Double) → Type 0
  AllBefore object time [] = Unit {0}
  AllBefore object time (r ∷ rs) = (r.object_id ≡ object → r.now < time) × AllBefore object time rs

  -- The requests for the object are answered with the prediction.
  abbrev pub AllServed :
      ℕ → Prediction Double → List (Request Double) → PredictionEngine Double → Type 0
  AllServed object p [] e = Unit {0}
  AllServed object p (r ∷ rs) e =
      (r.object_id ≡ object → (ask r e).0 ≡ ok p) × AllServed object p rs (ask r e).1

  -- The cache has distinct keys, and holds the prediction for the object.
  record Holds (object : ℕ) (p : Prediction Double) (e : PredictionEngine Double) : Type 0 where
    keys : IsMap e.prediction_cache
    held : lookup object e.prediction_cache ≡ some p

  miss-Holds :
      (start end object other : ℕ) (p : Prediction Double) (predicted : Result (Prediction Double))
      (e : PredictionEngine Double)
      → other ≢ object
      → Holds object p e
      → Holds object p (miss true start end other predicted e).1
  unfolding miss
  miss-Holds start end object other p (err s) e ne h = record { keys = h.keys; held = h.held }
  miss-Holds start end object other p (ok q) e ne h = record {
    keys = insert-IsMap other q e.prediction_cache h.keys;
    held = lookup-insert other object q e.prediction_cache ∙ rw (ne→== other object ne) (h.held);
  }

  found-Holds :
      (start now end object other : ℕ) (p : Prediction Double)
      (predicted : Result (Prediction Double)) (e : PredictionEngine Double)
      (o : Option (Prediction Double))
      → other ≢ object
      → Holds object p e
      → Holds object p (found true start now end other predicted e o).1
  found-Holds start now end object other p predicted e none ne h =
      miss-Holds start end object other p predicted e ne h
  found-Holds start now end object other p predicted e (some q) ne h =
      elim (Bool-cases (is_live now q)) [
        | inl live ↦ simp live (record { keys = h.keys; held = h.held })
        | inr old ↦ simp old (
            miss-Holds start end object other p predicted
              (record e { prediction_cache = erase other e.prediction_cache }) ne
              (record {
                keys = erase-IsMap other e.prediction_cache h.keys;
                held =
                    lookup-erase other object e.prediction_cache h.keys
                    ∙ rw (ne→== other object ne) (h.held);
              }))
      ]

  -- A request for the object itself.
  served :
      (start now end object : ℕ) (p : Prediction Double) (predicted : Result (Prediction Double))
      (e : PredictionEngine Double)
      → 0 < p.expiration
      → now < p.expiration
      → Holds object p e
      → ((get_prediction true start now end object predicted e).0 ≡ ok p)
        × Holds object p (get_prediction true start now end object predicted e).1
  unfolding get_prediction
  served start now end object p predicted e some_time early h =
      let live : is_live now p ≡ true = ground arith in
      subst
        (λ o.
          ((found true start now end object predicted e o).0 ≡ ok p)
          × Holds object p (found true start now end object predicted e o).1)
        (sym h.held) (simp live (refl, record { keys = h.keys; held = h.held }))

  miss-answer :
      (start end object : ℕ) (predicted : Result (Prediction Double)) (e : PredictionEngine Double)
      → (miss true start end object predicted e).0 ≡ predicted
  unfolding miss
  miss-answer start end object (err s) e = refl
  miss-answer start end object (ok p) e = refl

  answered :
      (start now end object : ℕ) (p : Prediction Double) (predicted : Result (Prediction Double))
      (e : PredictionEngine Double)
      → 0 < p.expiration
      → Holds object p e
      → (get_prediction true start now end object predicted e).0
        ≡ (if ltb now p.expiration then ok p else predicted)
  unfolding get_prediction
  answered start now end object p predicted e some_time h =
      elim (Bool-cases (ltb now p.expiration)) [
        | inl early ↦
            rw early ((served start now end object p predicted e some_time (ground arith) h).0)
        | inr late ↦
            let set : ltb 0 p.expiration ≡ true = ground arith in
            subst
              (λ o.
                (found true start now end object predicted e o).0
                ≡ (if ltb now p.expiration then ok p else predicted))
              (sym h.held)
              (simp (set, late)
                (miss-answer start end object predicted
                  (record e { prediction_cache = erase object e.prediction_cache })))
      ]

  ask-Holds :
      (object : ℕ) (p : Prediction Double) (r : Request Double) (e : PredictionEngine Double)
      → 0 < p.expiration
      → (r.object_id ≡ object → r.now < p.expiration)
      → Holds object p e
      → (r.object_id ≡ object → (ask r e).0 ≡ ok p) × Holds object p (ask r e).1
  unfolding get_prediction
  ask-Holds object p r e some_time early h = elim (ℕ_discrete r.object_id object) [
    | yes same ↦
        let (answer, after) =
          served r.start r.now r.end r.object_id p r.predicted e some_time (early same)
            (subst (λ k. Holds k p e) (sym same) h) in
        ((λ e'. answer), subst (λ k. Holds k p (ask r e).1) same after)
    | no other ↦ (
      λ same. absurd (other same),
      found-Holds r.start r.now r.end object r.object_id p r.predicted e
          (lookup r.object_id e.prediction_cache) other h,
    )
  ]

  ask_all-Holds :
      (object : ℕ) (p : Prediction Double) (rs : List (Request Double))
      (e : PredictionEngine Double)
      → 0 < p.expiration
      → AllBefore object p.expiration rs
      → Holds object p e
      → AllServed object p rs e × Holds object p (ask_all rs e)
  ask_all-Holds object p [] e some_time early h = (tt, h)
  ask_all-Holds object p (r ∷ rs) e some_time (early, later) h =
      let (answer, after) = ask-Holds object p r e some_time early h in
      let (answers, last) = ask_all-Holds object p rs (ask r e).1 some_time later after in
      ((answer, answers), last)

  -- On a cache with distinct keys, the predictor of an engine with a learning engine predicts for
  -- an object without an entry. Then, among any requests for any objects, every request for this
  -- one before the expiration is answered with that prediction, whatever the predictor would answer
  -- by then; and the first one at the expiration or later is answered as the predictor does.
  pub get_prediction-expires :
      (object start now end start' now' end' : ℕ) (p : Prediction Double)
      (predicted : Result (Prediction Double)) (rs : List (Request Double))
      (e : PredictionEngine Double)
      → IsMap e.prediction_cache
      → lookup object e.prediction_cache ≡ none
      → 0 < p.expiration
      → AllBefore object p.expiration rs
      → let (first, e') = get_prediction true start now end object (ok p) e in
        (first ≡ ok p)
        × AllServed object p rs e'
        × ((get_prediction true start' now' end' object predicted (ask_all rs e')).0
            ≡ (if ltb now' p.expiration then ok p else predicted))
  unfolding get_prediction miss
  get_prediction-expires object start now end start' now' end' p predicted rs e keys absent
        some_time early =
      let stored = insert object p e.prediction_cache in
      let held : lookup object stored ≡ some p =
        lookup-insert object object p e.prediction_cache ∙ rw (==_refl object) refl in
      let (answers, last) =
        ask_all-Holds object p rs _ some_time early
          (record { keys = insert-IsMap object p e.prediction_cache keys; held = held }) in
      rw absent (refl, answers, answered start' now' end' object p predicted _ some_time last)
