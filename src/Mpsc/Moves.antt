-- ===== src/Mpsc/Moves.antt =====
-- Every step of a producer or of the consumer keeps the invariant.
use ume.Prelude.{
  ℕ, ◌+◌, ◌-◌, ◌%◌, ◌^◌, ◌≤◌, ◌<◌, ◌≡◌, sym, ap, subst, ◌∙◌, inl, inr, Bool, not, ◌&&◌, some, List,
  [], ◌∷◌, ◌++◌, append-nil, arith, dec_lt, ◌==◌, Bool-cases, add64, length, put,
}
use native.Mathlib.Nat.{one-le-pow, add-mod_right}
use ume.Mpsc.Steps.{claim-IsSystem}
use ume.Mpsc.Writes.{stored, stored-IsSystem, same_cell}
use ume.Mpsc.Takes.{released-IsSystem, waits}
use ume.Mpsc.{
  Cell, LockFreeMpscQueue, Producer, resting, loading, reading, claiming, filling, publishing,
  Consumer, waiting, checking, taking, releasing, leaving, masked, is_behind, System, enqueue_step,
  dequeue_step, newly_claimed, given_back,
}
use ume.Mpsc.Invariant.{
  cell, ProducerHolds, ConsumerHolds, owned, IsSystem, masked_lem, goes_on-IsSystem,
}

module _ {A : Type 0} where
  -- The system after a step of producer `i`, with what it claims.
  abbrev produced : System A → ℕ → Producer A → LockFreeMpscQueue A → List A → System A
  produced s i p' q' new = record s {
    queue = q';
    producers = put i p' s.producers;
    claimed = s.claimed ++ new;
  }

  nothing_claimed :
      (k : ℕ) (s : System A) (i : ℕ) (p' : Producer A) (q' : LockFreeMpscQueue A)
      → IsSystem k (record s { queue = q'; producers = put i p' s.producers })
      → IsSystem k (produced s i p' q' [])
  nothing_claimed k s i p' q' h =
      subst
        (λ l. IsSystem k (record s { queue = q'; producers = put i p' s.producers; claimed = l }))
        (sym (append-nil s.claimed)) h

  -- The counters are far from wrapping.
  abbrev pub Fits : ℕ → ℕ → System A → Type 0
  Fits k steps s = length s.claimed + steps + 2 ^ k < 2 ^ 63

  -- A position that a producer has read, and whose cell is free, is within the lap.
  within :
      (k pos : ℕ) (s : System A)
      → 2 ≤ 2 ^ k
      → IsSystem k s
      → pos ≤ length s.claimed
      → (cell k s.queue pos).sequence ≡ pos
      → pos < length s.popped + 2 ^ k
  within k pos s two h le e = elim (dec_lt pos (length s.popped + 2 ^ k)) [
    | yes lt ↦ lt
    | no ge ↦
        let full : pos ≡ length s.popped + 2 ^ k = omega (arith, h.room) in
        let lap : (cell k s.queue pos).sequence ≡ (cell k s.queue (length s.popped)).sequence =
          ap (λ n. (cell k s.queue n).sequence) full
          ∙ ap (λ n. (s.queue.buffer n).sequence) (add-mod_right (length s.popped) (2 ^ k)) in
        ground (arith, h.pending (length s.popped) (omega arith) (omega (arith, h.room)))
  ]

  pub enqueue_step-IsSystem :
      (k : ℕ) (spurious : Bool) (i : ℕ) (s : System A) (p : Producer A)
      → 2 ≤ 2 ^ k
      → Fits k 1 s
      → s.producers i ≡ p
      → ProducerHolds s k (length s.popped) p
      → IsSystem k s
      → (let (result, p', q') = enqueue_step k spurious p s.queue in
          IsSystem k (produced s i p' q' (newly_claimed p p')))
  unfolding enqueue_step
  enqueue_step-IsSystem k spurious i s resting two fits e g h =
      nothing_claimed k s i resting s.queue
        (goes_on-IsSystem k s i resting tt (λ p x. ground arith) h)
  enqueue_step-IsSystem k spurious i s (loading item) two fits e g h =
      nothing_claimed k s i (reading item s.queue.enqueue_cursor) s.queue (
        goes_on-IsSystem k s i (reading item s.queue.enqueue_cursor) (omega (arith, h.cursor))
          (λ p x. ground arith) h)
  enqueue_step-IsSystem k spurious i s (reading item pos) two fits e g h =
      simp (masked_lem k pos) (elim (Bool-cases ((cell k s.queue pos).sequence == pos)) [
        | inl free ↦ simp free (
            nothing_claimed k s i (claiming item pos) s.queue (
              goes_on-IsSystem k s i (claiming item pos) (g, within k pos s two h g (ground arith))
                (λ p x. ground arith) h))
        | inr other ↦ elim (Bool-cases (is_behind (cell k s.queue pos).sequence pos)) [
          | inl full ↦
              simp (other, full)
                (nothing_claimed k s i resting s.queue
                  (goes_on-IsSystem k s i resting tt (λ p x. ground arith) h))
          | inr late ↦
              simp (other, late)
                (nothing_claimed k s i (loading item) s.queue
                  (goes_on-IsSystem k s i (loading item) tt (λ p x. ground arith) h))
        ]
      ])
  enqueue_step-IsSystem k spurious i s (claiming item pos) two fits e (g, lt) h =
      elim (Bool-cases (not spurious && s.queue.enqueue_cursor == pos)) [
        | inl won ↦
            let at : pos ≡ length s.claimed = ground (arith, h.cursor) in
            let up : add64 pos 1 ≡ length s.claimed + 1 = omega arith in
            let base : IsSystem k (claiming_at pos (length s.claimed + 1)) =
              subst (λ n. IsSystem k (claiming_at n (length s.claimed + 1))) (sym at)
                (claim-IsSystem k i s item (omega arith) h) in
            simp won (subst (λ n. IsSystem k (claiming_at pos n)) (sym up) base)
        | inr lost ↦ simp lost (
            nothing_claimed k s i (reading item s.queue.enqueue_cursor) s.queue (
              goes_on-IsSystem k s i (reading item s.queue.enqueue_cursor) (omega (arith, h.cursor))
                (λ p x. ground arith) h))
      ]
    where
      claiming_at : ℕ → ℕ → System A
      claiming_at at cursor = record s {
        queue = record s.queue { enqueue_cursor = cursor };
        producers = put i (filling item at) s.producers;
        claimed = s.claimed ++ item ∷ [];
      }
  enqueue_step-IsSystem k spurious i s (filling item pos) two fits e (low, high, seq, its) h =
      let b : Cell A = record (cell k s.queue pos) { content = item } in
      let here : cell k (stored k s i (publishing item pos) pos b).queue pos ≡ b =
        same_cell k s i (publishing item pos) pos b h (ap owned e) in
      let kept : (cell k (stored k s i (publishing item pos) pos b).queue pos).sequence ≡ pos =
        ap (λ c. c.sequence) here ∙ seq in
      nothing_claimed k s i (publishing item pos) _ (
        simp (masked_lem k pos) (
          stored-IsSystem k s i (publishing item pos) pos b h (ap owned e) (λ q x. ground arith)
            ((low, high, kept, its), ap (λ c. c.content) here) (inl kept)))
  enqueue_step-IsSystem k spurious i s (publishing item pos) two fits e ((low, high, seq, its), c)
        h =
      let b : Cell A = record (cell k s.queue pos) { sequence = add64 pos 1 } in
      let up : add64 pos 1 ≡ pos + 1 = omega arith in
      let here : cell k (stored k s i resting pos b).queue pos ≡ b =
        same_cell k s i resting pos b h (ap owned e) in
      nothing_claimed k s i resting _ (
        simp (masked_lem k pos) (
          stored-IsSystem k s i resting pos b h (ap owned e) (λ q x. ground arith) tt
            (inr (
              ap (λ c. c.sequence) here ∙ up,
              its ∙ ap some (sym (ap (λ c. c.content) here ∙ c)),
            ))))

  -- The system after a step of the consumer, with what it gives back.
  abbrev consumed : System A → Consumer A → LockFreeMpscQueue A → List A → System A
  consumed s c' q' back = record s { queue = q'; consumer = c'; popped = s.popped ++ back }

  nothing_given :
      (k : ℕ) (s : System A) (c' : Consumer A) (cur : ℕ)
      → (let s' : System A = record s {
        queue = record s.queue { dequeue_cursor = cur };
        consumer = c';
      } in
          ConsumerHolds s' k (length s.popped) c'
          → IsSystem k s
          → IsSystem k (record s' { popped = s.popped ++ [] }))
  nothing_given k s c' cur holds h =
      subst
        (λ l.
          IsSystem k (record s {
            queue = record s.queue { dequeue_cursor = cur };
            consumer = c';
            popped = l;
          }))
        (sym (append-nil s.popped))
        (record {
          cursor = h.cursor;
          low = h.low;
          room = h.room;
          order = h.order;
          pending = h.pending;
          vacant = h.vacant;
          producing = λ i. h.producing i;
          alone = h.alone;
          consuming = holds;
        })

  pub dequeue_step-IsSystem :
      (k : ℕ) (s : System A) (c : Consumer A)
      → Fits k 1 s
      → ConsumerHolds s k (length s.popped) c
      → IsSystem k s
      → (let (result, c', q') = dequeue_step k c s.queue in
          IsSystem k (consumed s c' q' (given_back c)))
  unfolding dequeue_step
  dequeue_step-IsSystem k s waiting fits g h = nothing_given k s waiting s.queue.dequeue_cursor g h
  dequeue_step-IsSystem k s (checking pos) fits (cur, at) h =
      simp (masked_lem k pos) (elim (Bool-cases ((cell k s.queue pos).sequence == add64 pos 1)) [
        | inl there ↦ simp there (
            nothing_given k s (taking pos) s.queue.dequeue_cursor
              (cur, at, ground (arith, ap (λ n. (cell k s.queue n).sequence) at, h.low)) h)
        | inr none_yet ↦ simp none_yet (nothing_given k s waiting s.queue.dequeue_cursor cur h)
      ])
  dequeue_step-IsSystem k s (taking pos) fits (cur, at, there) h =
      let e : masked k pos ≡ length s.popped % 2 ^ k = masked_lem k pos ∙ ap (λ n. n % 2 ^ k) at in
      let lt : length s.popped < length s.claimed = waits k s h there in
      nothing_given k s (releasing (s.queue.buffer (masked k pos)).content pos)
        s.queue.dequeue_cursor
        (
          cur,
          at,
          there,
          elim (h.pending (length s.popped) (omega arith) lt) [
            | inl unfilled ↦ ground arith
            | inr (_, its) ↦ its ∙ ap (λ n. some (s.queue.buffer n).content) (sym e)
          ],
        )
        h
  dequeue_step-IsSystem k s (releasing item pos) fits (cur, at, there, its) h =
      let e : masked k pos ≡ length s.popped % 2 ^ k = masked_lem k pos ∙ ap (λ n. n % 2 ^ k) at in
      let up : add64 (add64 pos (2 ^ k - 1)) 1 ≡ length s.popped + 2 ^ k =
        omega (arith, h.low, one-le-pow k 2) in
      let base : IsSystem k
          (released_at (length s.popped % 2 ^ k) (length s.popped) (length s.popped + 2 ^ k)) =
        released-IsSystem k s item h cur there its in
      let here : IsSystem k
          (released_at (masked k pos) (length s.popped) (length s.popped + 2 ^ k)) =
        subst (λ n. IsSystem k (released_at n (length s.popped) (length s.popped + 2 ^ k))) (sym e)
          base in
      subst (λ v. IsSystem k (released_at (masked k pos) pos v)) (sym up)
        (subst (λ p. IsSystem k (released_at (masked k pos) p (length s.popped + 2 ^ k))) (sym at)
          here)
    where
      released_at : ℕ → ℕ → ℕ → System A
      released_at n p v = record s {
        queue = record s.queue {
          buffer = put n (record (s.queue.buffer n) { sequence = v }) s.queue.buffer;
        };
        consumer = leaving item p;
        popped = s.popped ++ item ∷ [];
      }
  dequeue_step-IsSystem k s (leaving item pos) fits (cur, at) h =
      nothing_given k s waiting (add64 pos 1) (omega (arith, at, h.low)) h
