-- ===== src/Epoch/Readers.antt =====
-- The steps of readers, and of threads that register.
use ume.Prelude.{
  ℕ, ◌+◌, ◌^◌, ◌≤◌, ◌<◌, ◌≡◌, refl, sym, ap, subst, inl, inr, true, false, arith, ltb, leb, ◌==◌,
  ltb→lt, ==_iff, ==_refl, Bool-cases, put,
}
use ume.Epoch.{
  Reader, outside, loaded, timed, stored, inside, ThreadEpochSlot, num_slots, register_thread,
  enter_step, exit, max_rcu_threads,
}
use ume.Epoch.System.{System, is_inside, registers, reader_enters, reader_exits, act}
use ume.Epoch.Invariant.{
  ReaderHolds, SectionHolds, IsSystem, AllItems-map, ItemHolds-step, ReaderHolds-grows, inside_lem,
}

-- Readers may move on, but none leaves its critical section and none enters one with another epoch
-- than that of its slot.
abbrev moved : System → (ℕ → ThreadEpochSlot) → (ℕ → Reader) → System
moved s cells readers = record s { rcu = record s.rcu { slots = cells }; readers = readers }

module _ (s : System) (cells : ℕ → ThreadEpochSlot) (readers : ℕ → Reader)
    (stay : (i : ℕ)
      → is_inside (s.readers i) ≡ true
      → (is_inside (readers i) ≡ true) × ((cells i).epoch ≡ (s.rcu.slots i).epoch))
    (hold : (i : ℕ)
      → ReaderHolds s.rcu.global_epoch (cells i) (num_slots s.rcu) i (readers i)) where
  Section-moved :
      (epoch : ℕ) (x : ℕ × ℕ)
      → epoch ≤ s.rcu.global_epoch
      → SectionHolds s epoch x
      → SectionHolds (moved s cells readers) epoch x
  Section-moved epoch (i, n) small (inl ended) = inl ended
  Section-moved epoch (i, n) small (inr (e, ins, le, cov)) =
      let (ins', same) = stay i ins in inr (e, ins', omega arith, cov)

  moved-IsSystem : IsSystem s → IsSystem (moved s cells readers)
  moved-IsSystem h = record {
    reading = hold;
    minimum = h.minimum;
    retired =
        AllItems-map s.rcu.retired_list
          (ItemHolds-step s (moved s cells readers) (omega arith) Section-moved) h.retired;
    retiring =
        AllItems-map s.retiring
          (ItemHolds-step s (moved s cells readers) (omega arith) Section-moved) h.retiring;
  }

-- One reader goes on from where it stands.
steps-IsSystem :
    (s : System) (slot : ℕ) (cells : ℕ → ThreadEpochSlot) (reader : Reader)
    → ((i : ℕ) → (i == slot) ≡ false → cells i ≡ s.rcu.slots i)
    → is_inside (s.readers slot) ≡ false
    → ReaderHolds s.rcu.global_epoch (cells slot) (num_slots s.rcu) slot reader
    → IsSystem s
    → IsSystem (moved s cells (put slot reader s.readers))
steps-IsSystem s slot cells reader others out holds h =
    moved-IsSystem s cells (put slot reader s.readers)
      (λ i ins. elim (Bool-cases (i == slot)) [
        | inl same ↦ ground (arith, ap is_inside (ap s.readers ((==_iff i slot).0 same)))
        | inr other ↦ (simp other ins, ap (λ c. c.epoch) (others i other))
      ])
      (λ i. elim (Bool-cases (i == slot)) [
        | inl same ↦ simp same (
            subst (λ k. ReaderHolds s.rcu.global_epoch (cells k) (num_slots s.rcu) k reader)
              (sym ((==_iff i slot).0 same)) holds)
        | inr other ↦ simp (other, others i other) (h.reading i)
      ])
      h

pub registers-IsSystem :
    (s : System) → s.rcu.allocated_slots + 1 < 2 ^ 64 → IsSystem s → IsSystem (act registers s).1
unfolding act register_thread
registers-IsSystem s fits h = record {
  reading = λ i.
      ReaderHolds-grows _ _ (s.rcu.slots i) _ _ i (s.readers i) (omega arith) (ground arith)
        (h.reading i);
  minimum = h.minimum;
  retired = h.retired;
  retiring = h.retiring;
}

-- Where the reader in the slot stands is read from the table.
stands :
    (s : System) (slot : ℕ) (reader : Reader)
    → s.readers slot ≡ reader
    → IsSystem s
    → ReaderHolds s.rcu.global_epoch (s.rcu.slots slot) (num_slots s.rcu) slot reader
stands s slot reader e h =
    subst (ReaderHolds s.rcu.global_epoch (s.rcu.slots slot) (num_slots s.rcu) slot) e
      (h.reading slot)

enter_step-IsSystem :
    (now slot : ℕ) (s : System) (reader : Reader)
    → s.readers slot ≡ reader
    → slot < num_slots s.rcu
    → IsSystem s
    → IsSystem (record s {
      rcu = (enter_step now slot reader s.rcu).1;
      readers = put slot (enter_step now slot reader s.rcu).0 s.readers;
    })
unfolding enter_step
enter_step-IsSystem now slot s outside e lt h =
    let small : leb max_rcu_threads slot ≡ false = ground arith in
    simp small (
      steps-IsSystem s slot s.rcu.slots (loaded s.rcu.global_epoch) (λ i o. refl) (ap is_inside e)
        (omega arith, lt) h)
enter_step-IsSystem now slot s (loaded epoch) e lt h =
    steps-IsSystem s slot _ (timed epoch) (λ i o. simp o) (ap is_inside e)
      (stands s slot (loaded epoch) e h) h
enter_step-IsSystem now slot s (timed epoch) e lt h =
    steps-IsSystem s slot _ stored (λ i o. simp o) (ap is_inside e)
      (simp (==_refl slot) (stands s slot (timed epoch) e h)) h
enter_step-IsSystem now slot s stored e lt h =
    steps-IsSystem s slot _ inside (λ i o. simp o) (ap is_inside e)
      (simp (==_refl slot) ((stands s slot stored e h).0, lt, refl)) h
enter_step-IsSystem now slot s inside e lt h =
    moved-IsSystem s s.rcu.slots (put slot inside s.readers)
      (λ i ins. elim (Bool-cases (i == slot)) [
        | inl same ↦ (simp same, refl)
        | inr other ↦ (simp other ins, refl)
      ])
      (λ i. elim (Bool-cases (i == slot)) [
        | inl same ↦ simp same (
            subst (λ k. ReaderHolds s.rcu.global_epoch (s.rcu.slots k) (num_slots s.rcu) k inside)
              (sym ((==_iff i slot).0 same)) (stands s slot inside e h))
        | inr other ↦ simp other (h.reading i)
      ])
      h

pub reader_enters-IsSystem :
    (now slot : ℕ) (s : System) → IsSystem s → IsSystem (act (reader_enters slot now) s).1
unfolding act
reader_enters-IsSystem now slot s h = elim (Bool-cases (ltb slot (num_slots s.rcu))) [
  | inl low ↦ simp low (enter_step-IsSystem now slot s (s.readers slot) refl (ltb→lt _ _ low) h)
  | inr high ↦ simp high h
]

-- The system after a reader has left the critical section in its slot.
abbrev exited : ℕ → System → System
exited slot s = record s {
  rcu = record s.rcu {
    slots = put slot (record (s.rcu.slots slot) { active = false }) s.rcu.slots;
  };
  readers = put slot outside s.readers;
  sections = put slot (s.sections slot + 1) s.sections;
}

Section-exited :
    (slot : ℕ) (s : System) (epoch : ℕ) (x : ℕ × ℕ)
    → epoch ≤ s.rcu.global_epoch
    → SectionHolds s epoch x
    → SectionHolds (exited slot s) epoch x
Section-exited slot s epoch (i, n) small h = elim (Bool-cases (i == slot)) [
  | inl same ↦ inl (simp same (ground (arith, ap s.sections ((==_iff i slot).0 same))))
  | inr other ↦ simp other h
]

exited-IsSystem : (slot : ℕ) (s : System) → IsSystem s → IsSystem (exited slot s)
exited-IsSystem slot s h = record {
  reading = λ i. elim (Bool-cases (i == slot)) [
    | inl same ↦ simp same tt
    | inr other ↦ simp other (h.reading i)
  ];
  minimum = h.minimum;
  retired =
      AllItems-map s.rcu.retired_list
        (ItemHolds-step s (exited slot s) (omega arith) (Section-exited slot s)) h.retired;
  retiring =
      AllItems-map s.retiring
        (ItemHolds-step s (exited slot s) (omega arith) (Section-exited slot s)) h.retiring;
}

pub reader_exits-IsSystem :
    (slot : ℕ) (s : System) → IsSystem s → IsSystem (act (reader_exits slot) s).1
unfolding act exit
reader_exits-IsSystem slot s h = elim (Bool-cases (is_inside (s.readers slot))) [
  | inl here ↦
      let (_, low, _) =
        inside_lem s.rcu.global_epoch (s.rcu.slots slot) (num_slots s.rcu) slot (s.readers slot)
          here (h.reading slot) in
      let small : leb max_rcu_threads slot ≡ false = ground arith in
      simp (here, small) (exited-IsSystem slot s h)
  | inr gone ↦ simp gone h
]
