-- ===== src/Placement/Fifo.antt =====
-- The order of the queue of core/src/event/memory_placement.cpp.
use ume.Prelude.{
  arith, length-append, length, ◌+◌, min, ℕ, ◌≡◌, refl, sym, ap, ap₂, subst, ◌∙◌, List, [], ◌∷◌,
  ◌++◌, map, append_assoc, append-nil, add64, ◌==◌, Bool-cases, ◌||◌, if◌then◌else◌, inl, inr,
}
use ume.Status.{Result, ok, err}
use ume.Placement.{
  SchedulingDecision, PlacementRequest, PlacementEngine, contains, enqueue_request, take_front,
  dequeue_request, clear_queue, Operation, enqueues, dequeues, clears, perform, perform_all,
}
use ume.Placement.Queue.{queued, IsPlacement, perform-IsPlacement}

-- The request that an answer of `enqueue_request` stands for.
abbrev admitted : ℕ → SchedulingDecision → Result ℕ → List PlacementRequest
admitted now decision (ok id) =
    record { request_id = id; decision = decision; request_timestamp = now } ∷ []
admitted now decision (err s) = []

-- What an answer of `dequeue_request` hands over.
abbrev handed_over : Result PlacementRequest → List PlacementRequest
handed_over (ok r) = r ∷ []
handed_over (err s) = []

-- The requests that enter by an operation, and those that leave.
abbrev pub entering : Operation → PlacementEngine → List PlacementRequest
entering (enqueues now decision) e = admitted now decision (enqueue_request now decision e).0
entering dequeues e = []
entering clears e = []

abbrev pub leaving : Operation → PlacementEngine → List PlacementRequest
leaving (enqueues now decision) e = []
leaving dequeues e = handed_over (dequeue_request e).0
leaving clears e = e.queue

abbrev pub all_entering : List Operation → PlacementEngine → List PlacementRequest
all_entering [] e = []
all_entering (op ∷ ops) e = entering op e ++ all_entering ops (perform op e)

abbrev pub all_leaving : List Operation → PlacementEngine → List PlacementRequest
all_leaving [] e = []
all_leaving (op ∷ ops) e = leaving op e ++ all_leaving ops (perform op e)

-- Requests that are numbered one after the other.
abbrev pub AllNumbered : ℕ → List PlacementRequest → Type 0
AllNumbered last [] = Unit {0}
AllNumbered last (r ∷ rs) = (r.request_id ≡ add64 last 1) × AllNumbered r.request_id rs

-- The objects that are asked for and do not wait yet.
abbrev pub asked_for : Operation → PlacementEngine → List ℕ
asked_for (enqueues now decision) e =
    if decision.object_id == 0 || queued decision.object_id e.queue
    then []
    else decision.object_id ∷ []
asked_for dequeues e = []
asked_for clears e = []

abbrev pub all_asked_for : List Operation → PlacementEngine → List ℕ
all_asked_for [] e = []
all_asked_for (op ∷ ops) e = asked_for op e ++ all_asked_for ops (perform op e)

take_front-fifo :
    (rs : List PlacementRequest) (e : PlacementEngine)
    → e.queue ≡ rs
    → rs ≡ handed_over (take_front rs e).0 ++ (take_front rs e).1.queue
take_front-fifo [] e same = sym same
take_front-fifo (r ∷ rs) e same = refl

enqueue-fifo :
    (now : ℕ) (decision : SchedulingDecision) (e : PlacementEngine)
    → let (result, e') = enqueue_request now decision e in
      e.queue ++ admitted now decision result ≡ e'.queue
unfolding enqueue_request
enqueue-fifo now decision e = elim (Bool-cases (decision.object_id == 0)) [
  | inl null ↦ simp null (append-nil e.queue)
  | inr named ↦ elim (Bool-cases (contains decision.object_id e.pending_objects)) [
    | inl twice ↦ simp (named, twice) (append-nil e.queue)
    | inr fresh ↦ simp (named, fresh) refl
  ]
]

perform-fifo :
    (op : Operation) (e : PlacementEngine)
    → e.queue ++ entering op e ≡ leaving op e ++ (perform op e).queue
unfolding perform dequeue_request clear_queue
perform-fifo (enqueues now decision) e = enqueue-fifo now decision e
perform-fifo dequeues e = append-nil e.queue ∙ take_front-fifo e.queue e refl
perform-fifo clears e = refl

-- Who is let in, and under which number.
enqueue-entering :
    (now : ℕ) (decision : SchedulingDecision) (e : PlacementEngine) (rest : List PlacementRequest)
    → IsPlacement e
    → let (result, e') = enqueue_request now decision e in
      AllNumbered e'.request_id_counter rest
      → (map (λ r. r.decision.object_id) (admitted now decision result)
          ≡ asked_for (enqueues now decision) e)
        × AllNumbered e.request_id_counter (admitted now decision result ++ rest)
unfolding enqueue_request
enqueue-entering now decision e rest v = elim (Bool-cases (decision.object_id == 0)) [
  | inl null ↦ simp null (λ n. (refl, n))
  | inr named ↦ elim (Bool-cases (contains decision.object_id e.pending_objects)) [
    | inl twice ↦ simp (named, twice, sym (v.pending decision.object_id) ∙ twice) (λ n. (refl, n))
    | inr fresh ↦
        simp (named, fresh, sym (v.pending decision.object_id) ∙ fresh) (λ n. (refl, (refl, n)))
  ]
]

take_front-counter :
    (rs : List PlacementRequest) (e : PlacementEngine)
    → (take_front rs e).1.request_id_counter ≡ e.request_id_counter
take_front-counter [] e = refl
take_front-counter (r ∷ rs) e = refl

perform-entering :
    (op : Operation) (e : PlacementEngine) (rest : List PlacementRequest)
    → IsPlacement e
    → AllNumbered (perform op e).request_id_counter rest
    → (map (λ r. r.decision.object_id) (entering op e) ≡ asked_for op e)
      × AllNumbered e.request_id_counter (entering op e ++ rest)
unfolding perform dequeue_request clear_queue
perform-entering (enqueues now decision) e rest v n = enqueue-entering now decision e rest v n
perform-entering dequeues e rest v n =
    (refl, subst (λ last. AllNumbered last rest) (take_front-counter e.queue e) n)
perform-entering clears e rest v n = (refl, n)

map-append :
    (xs ys : List PlacementRequest)
    → map (λ r. r.decision.object_id) (xs ++ ys)
      ≡ map (λ r. r.decision.object_id) xs ++ map (λ r. r.decision.object_id) ys
map-append [] ys = refl
map-append (x ∷ xs) ys = ap (◌∷◌ x.decision.object_id) (map-append xs ys)

-- How many requests an operation has to take out of the queue.
abbrev pub due : Operation → PlacementEngine → ℕ
due (enqueues now decision) e = 0
due dequeues e = min 1 (length e.queue)
due clears e = length e.queue

abbrev pub all_due : List Operation → PlacementEngine → ℕ
all_due [] e = 0
all_due (op ∷ ops) e = due op e + all_due ops (perform op e)

take_front-due :
    (rs : List PlacementRequest) (e : PlacementEngine)
    → length (handed_over (take_front rs e).0) ≡ min 1 (length rs)
take_front-due [] e = omega arith
take_front-due (r ∷ rs) e = omega arith

perform-due : (op : Operation) (e : PlacementEngine) → length (leaving op e) ≡ due op e
unfolding dequeue_request
perform-due (enqueues now decision) e = refl
perform-due dequeues e = take_front-due e.queue e
perform-due clears e = refl

-- What the operations make of a queue.
pub record IsFifo (ops : List Operation) (e : PlacementEngine) : Type 0 where
  pub valid : IsPlacement (perform_all ops e)
  pub order : e.queue ++ all_entering ops e ≡ all_leaving ops e ++ (perform_all ops e).queue
  pub admits : map (λ r. r.decision.object_id) (all_entering ops e) ≡ all_asked_for ops e
  pub leaves : length (all_leaving ops e) ≡ all_due ops e
  pub numbered : AllNumbered e.request_id_counter (all_entering ops e)

-- After any sequence of enqueues, dequeues and clears on an engine whose pending objects are those
-- of its queue, no two for one object: that is so again; what waited at first and then entered, in
-- order, is what left, in order, and then what waits still; a request entered for each enqueue of a
-- named object that did not wait, and for no other; one left for each dequeue that found the queue
-- not empty, and all that waited for each clear; and the numbers of the requests that entered
-- follow one another.
pub perform_all-IsFifo : (ops : List Operation) (e : PlacementEngine) → IsPlacement e → IsFifo ops e
unfolding perform_all
perform_all-IsFifo [] e v = record {
  valid = v;
  order = append-nil e.queue;
  admits = refl;
  leaves = refl;
  numbered = tt;
}
perform_all-IsFifo (op ∷ ops) e v =
    let e' = perform op e in
    let rest = perform_all-IsFifo ops e' (perform-IsPlacement op e v) in
    let (here, numbers) = perform-entering op e (all_entering ops e') v rest.numbered in
    record {
      valid = rest.valid;
      order =
          sym (append_assoc e.queue (entering op e) (all_entering ops e'))
          ∙ ap (λ q. q ++ all_entering ops e') (perform-fifo op e)
          ∙ append_assoc (leaving op e) e'.queue (all_entering ops e')
          ∙ ap (λ q. leaving op e ++ q) rest.order
          ∙ sym (append_assoc (leaving op e) (all_leaving ops e') (perform_all ops e').queue);
      admits =
          map-append (entering op e) (all_entering ops e') ∙ ap₂ (λ a b. a ++ b) here rest.admits;
      leaves =
          length-append (leaving op e) (all_leaving ops e')
          ∙ ap₂ (λ a b. a + b) (perform-due op e) rest.leaves;
      numbered = numbers;
    }
