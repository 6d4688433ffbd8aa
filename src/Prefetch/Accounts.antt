-- ===== src/Prefetch/Accounts.antt =====
-- No request is lost.
use ume.Prelude.{
  ℕ, ◌+◌, ◌%◌, ◌^◌, ◌≡◌, refl, sym, ap, subst, ◌≢◌, inl, inr, Bool, true, false, not, Option, none,
  some, List, [], ◌∷◌, arith, ◌==◌, if◌then◌else◌, Bool-cases, add64, length, filter, length-append,
  lookup,
}
use ume.Floating.{Doubles}
use ume.Status.{Result, ok, err, already_initialized}
use ume.Placement.{enqueue_request}
use ume.Prefetch.{
  PrefetchRequest, PrefetchEngine, history_or_empty, detects_stride, push_request, stride_request,
  analyze_locality, record_access, submit_prefetches, is_for, requests_for, cancel_prefetch,
}
use ume.Prefetch.Worker.{
  Worker, absent, at_loop, has_request, finished, PrefetchSystem, decision_of, started, joined,
  take_request, route_answered, is_expired, worker_step, Action, records, submits, cancels, starts,
  asks_to_stop, joins, works, act, act_all, system_of,
}

module _ (d : Doubles) where
  abbrev pub in_hands : Worker d → ℕ
  in_hands absent = 0
  in_hands at_loop = 0
  in_hands (has_request r) = 1
  in_hands finished = 0

  -- Every request that was numbered waits, is in the worker's hands, or is counted once: as issued,
  -- as cancelled or as missed. A hit is an issued request.
  pub record IsAccounted (e : PrefetchEngine d) (n : ℕ) : Type 0 where
    pub balance :
        e.request_id_counter
        ≡ (length e.prefetch_queue
            + n
            + e.metrics.requests_issued
            + e.metrics.requests_cancelled
            + e.metrics.prefetch_misses)
          % 2 ^ 64
    pub hits : e.metrics.prefetch_hits ≡ e.metrics.requests_issued

  push_request-IsAccounted :
      (n : ℕ) (r : PrefetchRequest d) (e : PrefetchEngine d)
      → IsAccounted e n
      → IsAccounted (push_request d r e) n
  push_request-IsAccounted n r e h = record {
    balance = omega (
      arith,
      h.balance,
      length-append e.prefetch_queue (record r { request_id = add64 e.request_id_counter 1 } ∷ []),
    );
    hits = h.hits;
  }

  analyze_locality-IsAccounted :
      (n now k : ℕ) (e : PrefetchEngine d)
      → IsAccounted e n
      → IsAccounted (analyze_locality d now k e) n
  unfolding analyze_locality
  analyze_locality-IsAccounted n now k e h =
      elim (Bool-cases (detects_stride (history_or_empty (lookup k e.access_history)))) [
        | inl found ↦ rw found (push_request-IsAccounted n (stride_request d now k) e h)
        | inr not_found ↦ rw not_found h
      ]

  record_access-IsAccounted :
      (n now k address : ℕ) (e : PrefetchEngine d)
      → IsAccounted e n
      → IsAccounted (record_access d now k address e) n
  unfolding record_access
  record_access-IsAccounted n now k address e h =
      analyze_locality-IsAccounted n now k _ (record { balance = h.balance; hits = h.hits })

  submit_prefetches-IsAccounted :
      (n : ℕ) (rs : List (PrefetchRequest d)) (e : PrefetchEngine d)
      → IsAccounted e n
      → IsAccounted (submit_prefetches d rs e) n
  submit_prefetches-IsAccounted n [] e h = h
  submit_prefetches-IsAccounted n (r ∷ rs) e h =
      submit_prefetches-IsAccounted n rs (push_request d r e) (push_request-IsAccounted n r e h)

  pub length-cancelled :
      (k : ℕ) (rs : List (PrefetchRequest d))
      → length (filter (λ r. not (is_for d k r)) rs) + requests_for d k rs ≡ length rs
  length-cancelled k [] = omega arith
  length-cancelled k (r ∷ rs) = ground (arith, length-cancelled k rs)

  cancel_prefetch-IsAccounted :
      (n k : ℕ) (e : PrefetchEngine d) → IsAccounted e n → IsAccounted (cancel_prefetch d k e) n
  unfolding cancel_prefetch
  cancel_prefetch-IsAccounted n k e h = record {
    balance = omega (arith, h.balance, length-cancelled k e.prefetch_queue);
    hits = h.hits;
  }

  route_answered-IsAccounted :
      (r : PrefetchRequest d) (answer : Result ℕ) (e : PrefetchEngine d)
      → IsAccounted e 1
      → IsAccounted (route_answered d r answer e) 0
  route_answered-IsAccounted r (ok id) e h = record {
    balance = omega (arith, h.balance);
    hits = ap (λ n. add64 n 1) h.hits;
  }
  route_answered-IsAccounted r (err s) e h = record {
    balance = omega (arith, h.balance);
    hits = h.hits;
  }

  abbrev pub SystemAccounted : Option (PrefetchSystem d) → Type 0
  SystemAccounted none = Unit {0}
  SystemAccounted (some s) = IsAccounted s.engine (in_hands s.worker)

  take_request-IsAccounted :
      (rs : List (PrefetchRequest d)) (s : PrefetchSystem d)
      → s.engine.prefetch_queue ≡ rs
      → IsAccounted s.engine 0
      → IsAccounted (take_request d rs s).engine (in_hands (take_request d rs s).worker)
  take_request-IsAccounted [] s e h = h
  take_request-IsAccounted (r ∷ rs) s e h = record {
    balance = omega (arith, h.balance, ap length e);
    hits = h.hits;
  }

  worker_step-IsAccounted :
      (now placed_at : ℕ) (w : Worker d) (s : PrefetchSystem d)
      → s.worker ≡ w
      → IsAccounted s.engine (in_hands w)
      → let after = worker_step d now placed_at w s in
        IsAccounted after.engine (in_hands after.worker)
  worker_step-IsAccounted now placed_at absent s e h =
      subst (λ w. IsAccounted s.engine (in_hands w)) (sym e) h
  worker_step-IsAccounted now placed_at at_loop s e h = elim (Bool-cases s.engine.is_running) [
    | inl runs ↦ simp runs (take_request-IsAccounted s.engine.prefetch_queue s refl h)
    | inr stops ↦ simp stops h
  ]
  worker_step-IsAccounted now placed_at (has_request r) s e h =
      elim (Bool-cases (is_expired d now r)) [
        | inl expired ↦ simp expired (record { balance = omega (arith, h.balance); hits = h.hits })
        | inr fresh ↦ simp fresh (
            route_answered-IsAccounted r (enqueue_request placed_at (decision_of r) s.placement).0
              s.engine h)
      ]
  worker_step-IsAccounted now placed_at finished s e h =
      subst (λ w. IsAccounted s.engine (in_hands w)) (sym e) h

  started-IsAccounted :
      (w : Worker d) (s : PrefetchSystem d)
      → s.worker ≡ w
      → IsAccounted s.engine (in_hands w)
      → SystemAccounted (system_of d (started d w s))
  started-IsAccounted absent s e h = record { balance = h.balance; hits = h.hits }
  started-IsAccounted at_loop s e h = tt
  started-IsAccounted (has_request r) s e h = tt
  started-IsAccounted finished s e h = tt

  joined-IsAccounted :
      (w : Worker d) (e : PrefetchEngine d)
      → IsAccounted e (in_hands w)
      → IsAccounted e (in_hands (joined d w))
  joined-IsAccounted absent e h = h
  joined-IsAccounted at_loop e h = h
  joined-IsAccounted (has_request r) e h = h
  joined-IsAccounted finished e h = h

  act-IsAccounted :
      (a : Action d) (s : PrefetchSystem d)
      → IsAccounted s.engine (in_hands s.worker)
      → SystemAccounted (act d a s)
  act-IsAccounted (records now k address) s h = record_access-IsAccounted _ now k address s.engine h
  act-IsAccounted (submits rs) s h = submit_prefetches-IsAccounted _ rs s.engine h
  act-IsAccounted (cancels k) s h = cancel_prefetch-IsAccounted _ k s.engine h
  act-IsAccounted starts s h = elim (Bool-cases s.engine.is_running) [
    | inl runs ↦ simp runs h
    | inr stopped ↦ simp stopped (started-IsAccounted s.worker s refl h)
  ]
  act-IsAccounted asks_to_stop s h = record { balance = h.balance; hits = h.hits }
  act-IsAccounted joins s h = joined-IsAccounted s.worker s.engine h
  act-IsAccounted (works now placed_at) s h =
      worker_step-IsAccounted now placed_at s.worker s refl h

  -- However recordings, submissions, cancellations, starts, stops and the worker's steps follow one
  -- another, where the process does not end: if every request that was numbered was accounted for
  -- before, it is so afterwards. That is, it waits in the queue, or is in the worker's hands, or is
  -- counted once, as issued, as cancelled or as missed; up to the wrap-around of 64 bits. And the
  -- hits are the requests issued.
  pub act_all-IsAccounted :
      (actions : List (Action d)) (s : PrefetchSystem d)
      → IsAccounted s.engine (in_hands s.worker)
      → SystemAccounted (act_all d actions (some s))
  act_all-IsAccounted actions s h = all_from actions (some s) h
    where
      all_from :
          (actions : List (Action d)) (s : Option (PrefetchSystem d))
          → SystemAccounted s
          → SystemAccounted (act_all d actions s)
      all_from actions none h = tt
      all_from [] (some s) h = h
      all_from (a ∷ actions) (some s) h = all_from actions (act d a s) (act-IsAccounted a s h)

  -- The end of the process has one cause: a start of an engine that does not run, whose last thread
  -- was not joined yet. Every other action of every thread has a result.
  pub act-ends :
      (a : Action d) (s : PrefetchSystem d)
      → act d a s ≡ none
      → (a ≡ starts) × (s.engine.is_running ≡ false) × (s.worker ≢ absent)
  act-ends (records now k address) s h = absurd (ground arith)
  act-ends (submits rs) s h = absurd (ground arith)
  act-ends (cancels k) s h = absurd (ground arith)
  act-ends starts s h =
      let answered = λ (b : Bool) (w : Worker d).
        system_of d (if b then some (err already_initialized, s) else started d w s) in
      elim (Bool-cases s.engine.is_running) [
        | inl runs ↦
            let ends : answered true s.worker ≡ none =
              subst (λ b. answered b s.worker ≡ none) runs h in
            absurd (ground (arith, ends))
        | inr stopped ↦ (
          refl,
          stopped,
          λ e.
              let ends : answered false absent ≡ none =
                subst (λ w. answered false w ≡ none) e
                  (subst (λ b. answered b s.worker ≡ none) stopped h) in
              absurd (ground (arith, ends)),
        )
      ]
  act-ends asks_to_stop s h = absurd (ground arith)
  act-ends joins s h = absurd (ground arith)
  act-ends (works now placed_at) s h = absurd (ground arith)

  requests_for-cancelled :
      (j k : ℕ) (rs : List (PrefetchRequest d))
      → requests_for d j (filter (λ r. not (is_for d k r)) rs)
        ≡ (if k == j then 0 else requests_for d j rs)
  requests_for-cancelled j k [] = ground arith
  requests_for-cancelled j k (r ∷ rs) = ground (arith, requests_for-cancelled j k rs)

  -- After cancel_prefetch of an object no request of it waits in the queue, and those of every
  -- other object do as before.
  pub cancel_prefetch-requests_for :
      (j k : ℕ) (e : PrefetchEngine d)
      → requests_for d j (cancel_prefetch d k e).prefetch_queue
        ≡ (if k == j then 0 else requests_for d j e.prefetch_queue)
  unfolding cancel_prefetch
  cancel_prefetch-requests_for j k e = requests_for-cancelled j k e.prefetch_queue
