-- ===== src/Spsc/Steps.antt =====
-- A step of either thread keeps the invariant.
use ume.Prelude.{
  ℕ, suc, ◌+◌, ◌-◌, ◌%◌, ◌^◌, ◌≤◌, ◌<◌, ◌≡◌, sym, ap, ap₂, subst, ◌∙◌, inl, inr, List, [], ◌∷◌,
  ◌++◌, append_assoc, append-nil, arith, leb, ◌==◌, Bool-cases, add64,
}
use ume.Spsc.{
  LockFreeSpscQueue, Producer, resting, refreshing, storing, publishing, Consumer, waiting,
  rereading, taking, leaving, slot, is_full, store, push_step, pop_step, System, producer_steps,
  consumer_steps, act,
}
use ume.Spsc.Ring.{
  slot_lem, slots_differ, window, window-snoc, window-store, store_other, store_same,
}
use ume.Spsc.Invariant.{is_full_lem, ConsumerHolds, Counters, IsSystem}

module _ {A : Type 0} where
  -- The system with its parts apart, so that a proof splits on where a thread stands.
  abbrev pub assemble : LockFreeSpscQueue A → Producer A → Consumer A → List A → List A → System A
  assemble q p c pushed popped = record {
    queue = q;
    producer = p;
    consumer = c;
    pushed = pushed;
    popped = popped;
  }

  -- The consumer's knowledge survives a store that is behind its item.
  store-ConsumerHolds :
      (k h t ch : ℕ) (buffer : ℕ → A) (item : A) (c : Consumer A)
      → ch ≤ h
      → h < t + 2 ^ k
      → ConsumerHolds k t ch buffer c
      → ConsumerHolds k t ch (store (h % 2 ^ k) item buffer) c
  store-ConsumerHolds k h t ch buffer item waiting q r v = tt
  store-ConsumerHolds k h t ch buffer item (rereading tail) q r v = v
  store-ConsumerHolds k h t ch buffer item (taking tail) q r v = v
  store-ConsumerHolds k h t ch buffer item (leaving x tail) q r (a, b, v) = (
    a,
    b,
    store_other buffer (h % 2 ^ k) (t % 2 ^ k) item (slots_differ (2 ^ k) t h (omega arith) r) ∙ v,
  )

  window_grows :
      (buffer : ℕ → A) (c t h : ℕ) (item : A)
      → t ≤ h
      → buffer (h % c) ≡ item
      → window buffer c t (h - t) ++ item ∷ [] ≡ window buffer c t (h + 1 - t)
  window_grows buffer c t h item le held =
      ap (λ x. window buffer c t (h - t) ++ x ∷ []) (sym held ∙ ap (λ j. buffer (j % c)) there)
      ∙ (sym (window-snoc buffer c t (h - t)) ∙ ap (window buffer c t) count)
    where
      there : h ≡ t + (h - t)
      there = omega arith

      count : suc (h - t) ≡ h + 1 - t
      count = omega arith

  window_shrinks :
      (buffer : ℕ → A) (c t h : ℕ)
      → t < h
      → window buffer c t (h - t) ≡ buffer (t % c) ∷ window buffer c (t + 1) (h - (t + 1))
  window_shrinks buffer c t h lt = ap (window buffer c t) count
    where
      count : h - t ≡ suc (h - (t + 1))
      count = omega arith

  pub push_step-IsSystem :
      (k : ℕ) (q : LockFreeSpscQueue A) (p : Producer A) (c : Consumer A) (pushed popped : List A)
      → k < 64
      → 2 ^ k < 2 ^ 64
      → IsSystem k (assemble q p c pushed popped)
      → IsSystem k (act k producer_steps (assemble q p c pushed popped))
  unfolding act push_step
  push_step-IsSystem k q resting c pushed popped kk small v = record {
    h = v.h;
    t = v.t;
    ct = v.ct;
    ch = v.ch;
    counters = v.counters;
    producing = tt;
    consuming = v.consuming;
    log = append-nil pushed ∙ v.log;
  }
  push_step-IsSystem k q (refreshing item head) c pushed popped kk small v =
      let n = v.counters in
      let e : is_full k head q.tail ≡ leb (v.t + 2 ^ k) v.h =
        ap₂ (is_full k) v.producing n.tail
        ∙ is_full_lem k v.h v.t small (omega (arith, n.seen_head, n.stale_head))
            (omega (arith, n.room, n.stale_tail)) in
      let counters : Counters k (record q { cached_tail = q.tail }) v.h v.t v.t v.ch = record {
        head = n.head;
        tail = n.tail;
        cached_tail = n.tail;
        cached_head = n.cached_head;
        stale_tail = omega arith;
        seen_head = n.seen_head;
        stale_head = n.stale_head;
        room = omega (arith, n.room, n.stale_tail);
      } in
      elim (Bool-cases (leb (v.t + 2 ^ k) v.h)) [
        | inl full ↦
            simp (e, full)
              (record {
                h = v.h;
                t = v.t;
                ct = v.t;
                ch = v.ch;
                counters = counters;
                producing = tt;
                consuming = v.consuming;
                log = append-nil pushed ∙ v.log;
              })
        | inr free ↦
            simp (e, free)
              (record {
                h = v.h;
                t = v.t;
                ct = v.t;
                ch = v.ch;
                counters = counters;
                producing = (v.producing, ground arith);
                consuming = v.consuming;
                log = append-nil pushed ∙ v.log;
              })
      ]
  push_step-IsSystem k q (storing item head) c pushed popped kk small v =
      let n = v.counters in
      let (same, room) = v.producing in
      let at : slot k head ≡ v.h % 2 ^ k = ap (slot k) same ∙ slot_lem k v.h kk in
      subst
        (λ i. IsSystem k (
          assemble (record q { buffer = store i item q.buffer }) (publishing item head) c
            (pushed ++ []) popped))
        (sym at)
        (record {
          h = v.h;
          t = v.t;
          ct = v.ct;
          ch = v.ch;
          counters = record {
            head = n.head;
            tail = n.tail;
            cached_tail = n.cached_tail;
            cached_head = n.cached_head;
            stale_tail = n.stale_tail;
            seen_head = n.seen_head;
            stale_head = n.stale_head;
            room = n.room;
          };
          producing = (same, room, store_same q.buffer (v.h % 2 ^ k) item);
          consuming =
              store-ConsumerHolds k v.h v.t v.ch q.buffer item c n.stale_head
                (omega (arith, n.stale_tail)) v.consuming;
          log =
              append-nil pushed
              ∙ (v.log
                  ∙ ap (λ w. popped ++ w)
                      (sym (
                        window-store q.buffer (2 ^ k) v.t (v.h - v.t) v.h item
                          (omega (arith, n.seen_head, n.stale_head))
                          (omega (arith, n.stale_tail)))));
        })
  push_step-IsSystem k q (publishing item head) c pushed popped kk small v =
      let n = v.counters in
      let (same, room, held) = v.producing in
      record {
        h = v.h + 1;
        t = v.t;
        ct = v.ct;
        ch = v.ch;
        counters = record {
          head = ap (λ x. add64 x 1) same ∙ omega arith;
          tail = n.tail;
          cached_tail = n.cached_tail;
          cached_head = n.cached_head;
          stale_tail = n.stale_tail;
          seen_head = n.seen_head;
          stale_head = omega (arith, n.stale_head);
          room = omega arith;
        };
        producing = tt;
        consuming = v.consuming;
        log =
            ap (λ l. l ++ item ∷ []) v.log
            ∙ (append_assoc popped (window q.buffer (2 ^ k) v.t (v.h - v.t)) (item ∷ [])
                ∙ ap (λ w. popped ++ w)
                    (window_grows q.buffer (2 ^ k) v.t v.h item
                      (omega (arith, n.seen_head, n.stale_head)) held));
      }

  pub pop_step-IsSystem :
      (k : ℕ) (q : LockFreeSpscQueue A) (p : Producer A) (c : Consumer A) (pushed popped : List A)
      → k < 64
      → 2 ^ k < 2 ^ 64
      → IsSystem k (assemble q p c pushed popped)
      → IsSystem k (act k consumer_steps (assemble q p c pushed popped))
  unfolding act pop_step
  pop_step-IsSystem k q p waiting pushed popped kk small v = record {
    h = v.h;
    t = v.t;
    ct = v.ct;
    ch = v.ch;
    counters = v.counters;
    producing = v.producing;
    consuming = tt;
    log = v.log ∙ ap (λ l. l ++ window q.buffer (2 ^ k) v.t (v.h - v.t)) (sym (append-nil popped));
  }
  pop_step-IsSystem k q p (rereading tail) pushed popped kk small v =
      let n = v.counters in
      let counters : Counters k (record q { cached_head = q.head }) v.h v.t v.ct v.h = record {
        head = n.head;
        tail = n.tail;
        cached_tail = n.cached_tail;
        cached_head = n.head;
        stale_tail = n.stale_tail;
        seen_head = omega (arith, n.seen_head, n.stale_head);
        stale_head = omega arith;
        room = n.room;
      } in
      let log : pushed ≡ (popped ++ []) ++ window q.buffer (2 ^ k) v.t (v.h - v.t) =
        v.log ∙ ap (λ l. l ++ window q.buffer (2 ^ k) v.t (v.h - v.t)) (sym (append-nil popped)) in
      elim (Bool-cases (q.head == tail)) [
        | inl none_left ↦ simp none_left (record {
          h = v.h;
          t = v.t;
          ct = v.ct;
          ch = v.h;
          counters = counters;
          producing = v.producing;
          consuming = tt;
          log = log;
        })
        | inr more ↦ simp more (record {
          h = v.h;
          t = v.t;
          ct = v.ct;
          ch = v.h;
          counters = counters;
          producing = v.producing;
          consuming = (v.consuming, ground (arith, n.head, v.consuming, n.seen_head, n.stale_head));
          log = log;
        })
      ]
  pop_step-IsSystem k q p (taking tail) pushed popped kk small v =
      let n = v.counters in
      let (same, there) = v.consuming in
      record {
        h = v.h;
        t = v.t;
        ct = v.ct;
        ch = v.ch;
        counters = n;
        producing = v.producing;
        consuming = (same, there, sym (ap q.buffer (ap (slot k) same ∙ slot_lem k v.t kk)));
        log =
            v.log
            ∙ ap (λ l. l ++ window q.buffer (2 ^ k) v.t (v.h - v.t)) (sym (append-nil popped));
      }
  pop_step-IsSystem k q p (leaving item tail) pushed popped kk small v =
      let n = v.counters in
      let (same, there, held) = v.consuming in
      record {
        h = v.h;
        t = v.t + 1;
        ct = v.ct;
        ch = v.ch;
        counters = record {
          head = n.head;
          tail = ap (λ x. add64 x 1) same ∙ omega arith;
          cached_tail = n.cached_tail;
          cached_head = n.cached_head;
          stale_tail = omega (arith, n.stale_tail);
          seen_head = omega arith;
          stale_head = n.stale_head;
          room = n.room;
        };
        producing = v.producing;
        consuming = tt;
        log =
            v.log
            ∙ (ap (λ w. popped ++ w)
                  (window_shrinks q.buffer (2 ^ k) v.t v.h (omega (arith, n.stale_head))
                    ∙ ap (λ x. x ∷ window q.buffer (2 ^ k) (v.t + 1) (v.h - (v.t + 1))) held)
                ∙ sym (
                    append_assoc popped (item ∷ [])
                      (window q.buffer (2 ^ k) (v.t + 1) (v.h - (v.t + 1)))));
      }
