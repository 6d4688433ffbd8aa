-- ===== src/Placement/Queue.antt =====
-- The queue of requests and the set of pending objects.
use ume.Prelude.{
  ℕ, ◌≡◌, refl, sym, ap, subst, ◌∙◌, inl, inr, Bool, false, not, ◌||◌, List, [], ◌∷◌, ◌++◌, arith,
  ◌==◌, if◌then◌else◌, Bool-cases, filter,
}
use ume.Placement.{
  SchedulingDecision, PlacementRequest, PlacementEngine, contains, enqueue_request, take_front,
  dequeue_request, clear_queue, Operation, enqueues, dequeues, clears, perform,
}

-- Whether a request in the queue is for the object.
abbrev pub queued : ℕ → List PlacementRequest → Bool
queued k [] = false
queued k (r ∷ rs) = (r.decision.object_id == k) || queued k rs

-- No two requests in the queue are for one object.
abbrev pub AllDifferent : List PlacementRequest → Type 0
AllDifferent [] = Unit {0}
AllDifferent (r ∷ rs) = (queued r.decision.object_id rs ≡ false) × AllDifferent rs

-- The pending objects are those of the queue.
pub record IsPlacement (e : PlacementEngine) : Type 0 where
  pub pending : (k : ℕ) → contains k e.pending_objects ≡ queued k e.queue
  pub different : AllDifferent e.queue

queued-snoc :
    (k : ℕ) (rs : List PlacementRequest) (r : PlacementRequest)
    → queued k (rs ++ r ∷ []) ≡ (r.decision.object_id == k) || queued k rs
queued-snoc k [] r = refl
queued-snoc k (q ∷ rs) r = ground (arith, queued-snoc k rs r)

AllDifferent-snoc :
    (rs : List PlacementRequest) (r : PlacementRequest)
    → AllDifferent rs
    → queued r.decision.object_id rs ≡ false
    → AllDifferent (rs ++ r ∷ [])
AllDifferent-snoc [] r d h = (refl, tt)
AllDifferent-snoc (q ∷ rs) r (a, d) h =
    (ground (arith, queued-snoc q.decision.object_id rs r), AllDifferent-snoc rs r d (ground arith))

contains-filter :
    (k j : ℕ) (ks : List ℕ)
    → contains k (filter (λ i. not (i == j)) ks) ≡ (if j == k then false else contains k ks)
contains-filter k j [] = ground arith
contains-filter k j (i ∷ ks) = ground (arith, contains-filter k j ks)

enqueue-IsPlacement :
    (now : ℕ) (decision : SchedulingDecision) (e : PlacementEngine)
    → IsPlacement e
    → IsPlacement (enqueue_request now decision e).1
unfolding enqueue_request
enqueue-IsPlacement now decision e v = elim (Bool-cases (decision.object_id == 0)) [
  | inl null ↦ simp null v
  | inr named ↦ elim (Bool-cases (contains decision.object_id e.pending_objects)) [
    | inl twice ↦ simp (named, twice) v
    | inr fresh ↦
        simp (named, fresh)
          (record {
            pending = λ k.
                ap (λ b. (decision.object_id == k) || b) (v.pending k)
                ∙ sym (queued-snoc k e.queue _);
            different =
                AllDifferent-snoc e.queue _ v.different
                  (sym (v.pending decision.object_id) ∙ fresh);
          })
  ]
]

take_front-IsPlacement :
    (rs : List PlacementRequest) (e : PlacementEngine)
    → e.queue ≡ rs
    → IsPlacement e
    → IsPlacement (take_front rs e).1
take_front-IsPlacement [] e same v = v
take_front-IsPlacement (r ∷ rs) e same v =
    let (fresh, rest) = subst AllDifferent same v.different in
    record {
      pending = λ k.
          contains-filter k r.decision.object_id e.pending_objects
          ∙ ground (arith, v.pending k, ap (queued k) same, fresh);
      different = rest;
    }

pub perform-IsPlacement :
    (op : Operation) (e : PlacementEngine) → IsPlacement e → IsPlacement (perform op e)
unfolding perform dequeue_request clear_queue
perform-IsPlacement (enqueues now decision) e v = enqueue-IsPlacement now decision e v
perform-IsPlacement dequeues e v = take_front-IsPlacement e.queue e refl v
perform-IsPlacement clears e v = record { pending = λ k. refl; different = tt }
