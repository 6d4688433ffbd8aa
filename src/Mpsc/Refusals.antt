-- ===== src/Mpsc/Refusals.antt =====
-- When `enqueue` answers that the queue is full.
use ume.Prelude.{
  ℕ, ◌+◌, ◌-◌, ◌*◌, ◌/◌, ◌%◌, ◌^◌, ◌≤◌, ◌<◌, ◌≡◌, sym, ap, subst, Bool, false, some, List, arith,
  dec_lt, length,
}
use native.Mathlib.Nat.{one-le-pow, add-mul-mod_self_left, mod-lt, div-add-mod}
use ume.Mpsc.{reading, masked, is_behind, System, new_system, Action, act_all, enqueue_step}
use ume.Mpsc.Invariant.{cell, ProducerHolds, IsSystem, masked_lem}
use ume.Mpsc.Fifo.{reached-IsSystem, act_all-claims}

-- The position of the lap from `d` on with the cell of an earlier position.
lap : (c d p : ℕ) → 1 ≤ c → p < d → (n : ℕ) × ((d ≤ n) × (n < d + c) × (n % c ≡ p % c))
lap c d p one lt =
    let m : ℕ = d - p + (c - 1) in
    let whole : c * (m / c) + m % c ≡ m = div-add-mod m c in
    let part : m % c < c = mod-lt m one in
    (p + c * (m / c), (omega arith, omega arith, add-mul-mod_self_left p c (m / c)))

module _ {A : Type 0} where
  -- The sequence number of a position of the lap.
  in_lap :
      (k p : ℕ) (s : System A)
      → IsSystem k s
      → length s.popped ≤ p
      → p < length s.popped + 2 ^ k
      → (p ≤ (cell k s.queue p).sequence) × ((cell k s.queue p).sequence ≤ p + 1)
  in_lap k p s h low lt = elim (dec_lt p (length s.claimed)) [
    | yes old ↦ ground (arith, h.pending p low old)
    | no new ↦
        let e : (cell k s.queue p).sequence ≡ p = h.vacant p (omega arith) lt in
        (omega arith, omega arith)
  ]

  -- A sequence number is not behind its position, and within the lap.
  ahead :
      (k pos : ℕ) (s : System A)
      → IsSystem k s
      → pos < length s.popped + 2 ^ k
      → (pos ≤ (cell k s.queue pos).sequence)
        × ((cell k s.queue pos).sequence ≤ length s.popped + 2 ^ k)
  ahead k pos s h lt = elim (dec_lt pos (length s.popped)) [
    | yes before ↦
        let (n, (low, high, same)) =
          lap (2 ^ k) (length s.popped) pos (one-le-pow k 2 (omega arith)) before in
        let e : (cell k s.queue n).sequence ≡ (cell k s.queue pos).sequence =
          ap (λ j. (s.queue.buffer j).sequence) same in
        let (l, r) = in_lap k n s h low high in (omega arith, omega arith)
    | no after ↦ let (l, r) = in_lap k pos s h (omega arith) lt in (l, omega arith)
  ]

  refused-full :
      (k pos : ℕ) (item : A) (spurious : Bool) (s : System A)
      → IsSystem k s
      → length s.claimed + 2 ^ k < 2 ^ 63
      → pos ≤ length s.claimed
      → (enqueue_step k spurious (reading item pos) s.queue).0 ≡ some false
      → length s.claimed ≡ length s.popped + 2 ^ k
  unfolding enqueue_step
  refused-full k pos item spurious s h few le refused =
      elim (dec_lt pos (length s.popped + 2 ^ k)) [
        | yes lt ↦
            let (l, r) = ahead k pos s h lt in
            let fine : is_behind (cell k s.queue pos).sequence pos ≡ false =
              ground (arith, h.low) in
            let cell_of : masked k pos ≡ pos % 2 ^ k = masked_lem k pos in
            let here : is_behind (s.queue.buffer (masked k pos)).sequence pos ≡ false =
              subst (λ n. is_behind (s.queue.buffer n).sequence pos ≡ false) (sym cell_of) fine in
            ground (arith, here)
        | no ge ↦ omega (arith, h.room)
      ]

  -- For a capacity of two or more, in fewer steps than the counters can tell apart: if a call of
  -- `enqueue` answers that the queue is full, then at that step every place of the queue is claimed
  -- and not given back, however the threads interleave.
  pub enqueue_step-refused :
      (k : ℕ) (actions : List (Action A)) (fill : A) (i pos : ℕ) (item : A) (spurious : Bool)
      → 1 ≤ k
      → length actions + 2 ^ k < 2 ^ 63
      → (let s = act_all k actions (new_system fill) in
          s.producers i ≡ reading item pos
          → (enqueue_step k spurious (reading item pos) s.queue).0 ≡ some false
          → length s.claimed ≡ length s.popped + 2 ^ k)
  unfolding enqueue_step
  enqueue_step-refused k actions fill i pos item spurious one few at refused =
      let s : System A = act_all k actions (new_system fill) in
      let h : IsSystem k s = reached-IsSystem k actions fill one few in
      refused-full k pos item spurious s h
        (omega (arith, act_all-claims k actions (new_system fill)))
        (subst (ProducerHolds s k (length s.popped)) at (h.producing i)) refused
