-- ===== src/Mpsc/Fifo.antt =====
-- What every interleaving of the producers and the consumer keeps: items leave in the order of
-- claims.
use ume.Prelude.{
  ℕ, ◌+◌, ◌^◌, ◌≤◌, ◌<◌, ◌≡◌, refl, ap, subst, ◌∙◌, some, List, [], ◌∷◌, arith, length, take,
  length-append, put,
}
use native.Mathlib.Nat.{pow-le-pow_right}
use ume.Mpsc.{
  Producer, resting, loading, reading, claiming, filling, publishing, Consumer, waiting, checking,
  taking, releasing, leaving, System, new_system, Action, calls_enqueue, producer_steps,
  calls_dequeue, consumer_steps, start_enqueue, start_dequeue, act, act_all, enqueue_step,
  newly_claimed, won,
}
use ume.Mpsc.Invariant.{
  ProducerHolds, ConsumerHolds, owned, IsSystem, goes_on-IsSystem, new_system-IsSystem,
}
use ume.Mpsc.Moves.{Fits, enqueue_step-IsSystem, dequeue_step-IsSystem}

module _ {A : Type 0} where
  start_enqueue-IsSystem :
      (k i : ℕ) (item : A) (s : System A) (p : Producer A)
      → s.producers i ≡ p
      → IsSystem k s
      → IsSystem k (record s { producers = put i (start_enqueue item p) s.producers })
  start_enqueue-IsSystem k i item s p e h =
      goes_on-IsSystem k s i (start_enqueue item p)
        (go p (subst (ProducerHolds s k (length s.popped)) e (h.producing i)))
        (λ q x. ap owned e ∙ old p q x) h
    where
      go :
          (p : Producer A)
          → ProducerHolds s k (length s.popped) p
          → ProducerHolds s k (length s.popped) (start_enqueue item p)
      go resting g = tt
      go (loading x) g = g
      go (reading x q) g = g
      go (claiming x q) g = g
      go (filling x q) g = g
      go (publishing x q) g = g

      old : (p : Producer A) (q : ℕ) → owned (start_enqueue item p) ≡ some q → owned p ≡ some q
      old resting q x = x
      old (loading x) q y = y
      old (reading x r) q y = y
      old (claiming x r) q y = y
      old (filling x r) q y = y
      old (publishing x r) q y = y

  start_dequeue-IsSystem :
      (k : ℕ) (s : System A)
      → IsSystem k s
      → IsSystem k (record s { consumer = start_dequeue s.queue s.consumer })
  start_dequeue-IsSystem k s h = record {
    cursor = h.cursor;
    low = h.low;
    room = h.room;
    order = h.order;
    pending = h.pending;
    vacant = h.vacant;
    producing = λ i. h.producing i;
    alone = h.alone;
    consuming = go s.consumer h.consuming;
  }
    where
      go :
          (c : Consumer A)
          → ConsumerHolds s k (length s.popped) c
          → ConsumerHolds s k (length s.popped) (start_dequeue s.queue c)
      go waiting g = (g, g)
      go (checking q) g = g
      go (taking q) g = g
      go (releasing x q) g = g
      go (leaving x q) g = g

  act-IsSystem :
      (k : ℕ) (a : Action A) (s : System A)
      → 2 ≤ 2 ^ k
      → Fits k 1 s
      → IsSystem k s
      → IsSystem k (act k a s)
  unfolding act
  act-IsSystem k (calls_enqueue i item) s two fits h =
      start_enqueue-IsSystem k i item s (s.producers i) refl h
  act-IsSystem k (producer_steps i spurious) s two fits h =
      enqueue_step-IsSystem k spurious i s (s.producers i) two fits refl (h.producing i) h
  act-IsSystem k calls_dequeue s two fits h = start_dequeue-IsSystem k s h
  act-IsSystem k consumer_steps s two fits h =
      dequeue_step-IsSystem k s s.consumer fits h.consuming h

  won-length : (item : A) (p : Producer A) → length (won item p) ≤ 1
  won-length item resting = omega arith
  won-length item (loading x) = omega arith
  won-length item (reading x q) = omega arith
  won-length item (claiming x q) = omega arith
  won-length item (filling x q) = omega arith
  won-length item (publishing x q) = omega arith

  newly_claimed-length : (p p' : Producer A) → length (newly_claimed p p') ≤ 1
  newly_claimed-length resting p' = omega arith
  newly_claimed-length (loading x) p' = omega arith
  newly_claimed-length (reading x q) p' = omega arith
  newly_claimed-length (claiming x q) p' = won-length x p'
  newly_claimed-length (filling x q) p' = omega arith
  newly_claimed-length (publishing x q) p' = omega arith

  act-claims :
      (k : ℕ) (a : Action A) (s : System A) → length (act k a s).claimed ≤ length s.claimed + 1
  unfolding act
  act-claims k (calls_enqueue i item) s = omega arith
  act-claims k (producer_steps i spurious) s =
      let next : Producer A = (enqueue_step k spurious (s.producers i) s.queue).1 in
      omega (
        arith,
        length-append s.claimed (newly_claimed (s.producers i) next),
        newly_claimed-length (s.producers i) next,
      )
  act-claims k calls_dequeue s = omega arith
  act-claims k consumer_steps s = omega arith

  pub act_all-claims :
      (k : ℕ) (actions : List (Action A)) (s : System A)
      → length (act_all k actions s).claimed ≤ length s.claimed + length actions
  unfolding act_all
  act_all-claims k [] s = omega arith
  act_all-claims k (a ∷ rest) s = omega (arith, act-claims k a s, act_all-claims k rest (act k a s))

  act_all-IsSystem :
      (k : ℕ) (actions : List (Action A)) (s : System A)
      → 2 ≤ 2 ^ k
      → Fits k (length actions) s
      → IsSystem k s
      → IsSystem k (act_all k actions s)
  unfolding act_all
  act_all-IsSystem k [] s two fits h = h
  act_all-IsSystem k (a ∷ rest) s two fits h =
      act_all-IsSystem k rest (act k a s) two (omega (arith, act-claims k a s))
        (act-IsSystem k a s two (omega arith) h)

  pub reached-IsSystem :
      (k : ℕ) (actions : List (Action A)) (fill : A)
      → 1 ≤ k
      → length actions + 2 ^ k < 2 ^ 63
      → IsSystem k (act_all k actions (new_system fill))
  reached-IsSystem k actions fill one few =
      act_all-IsSystem k actions (new_system fill) (pow-le-pow_right (omega arith) one)
        (omega arith) (new_system-IsSystem k fill)

  -- For a capacity of two or more, in fewer steps than the counters can tell apart, and however the
  -- producers and the consumer interleave: the items that have left the queue are the first of
  -- those whose place was claimed, in the order of the claims, and at most the capacity waits.
  pub act_all-order :
      (k : ℕ) (actions : List (Action A)) (fill : A)
      → 1 ≤ k
      → length actions + 2 ^ k < 2 ^ 63
      → (let s = act_all k actions (new_system fill) in
          (s.popped ≡ take (length s.popped) s.claimed)
          × (length s.claimed ≤ length s.popped + 2 ^ k))
  act_all-order k actions fill one few =
      let h = reached-IsSystem k actions fill one few in (h.order, h.room)
