-- ===== src/Epoch/Reclaims.antt =====
-- The steps of threads that retire and of the thread that reclaims.
use ume.Prelude.{
  ℕ, zero, suc, ◌+◌, ◌^◌, ◌≤◌, ◌<◌, min, ◌≡◌, refl, ap, subst, inl, inr, true, false, List, [], ◌∷◌,
  arith, ltb, ◌==◌, if◌then◌else◌, ==_iff, Bool-cases, add64,
}
use ume.Epoch.{
  DeferredDeletion, Reclaimer, idle, advancing, checking, advanced, counting, scanning, sweeping,
  num_slots, blocks, split_retired, retire_load, retire_push, reclaim_step, max_rcu_threads,
}
use ume.Epoch.System.{
  System, Sections, is_inside, open_sections, pick, push_all, calls_retire, retire_pushes, act,
}
use ume.Epoch.Invariant.{
  MinHolds, Covered, SectionHolds, AllSections, ItemHolds, AllItems, IsSystem, AllSections-map,
  AllItems-map, AllItems-append, ItemHolds-step, ReaderHolds-grows, inside_lem, Ended,
}

-- The minimum so far and the scan's place cover a section that is open now.
covers :
    (s : System)
    → IsSystem s
    → (i : ℕ) → is_inside (s.readers i) ≡ true
    → Covered s.reclaimer s.rcu.global_epoch i
covers s h i ins = go s.reclaimer h.minimum
  where
    go : (r : Reclaimer) → MinHolds s.rcu.global_epoch r → Covered r s.rcu.global_epoch i
    go idle m = tt
    go (advancing e) m = tt
    go (checking e num k) m = tt
    go advanced m = tt
    go (counting min_epoch) m = tt
    go (scanning min_epoch num k) m = inl m
    go (sweeping min_epoch) m = m

-- The sections that are open are held by readers that are inside, of no later epoch than the global
-- one.
open_sections-AllSections :
    (s : System)
    → IsSystem s
    → (n : ℕ)
    → AllSections (SectionHolds s s.rcu.global_epoch) (open_sections n s.readers s.sections)
open_sections-AllSections s h zero = tt
open_sections-AllSections s h (suc n) = elim (Bool-cases (is_inside (s.readers n))) [
  | inl here ↦ simp here (
    (inr (
      refl,
      refl,
      (inside_lem _ (s.rcu.slots n) (num_slots s.rcu) n (s.readers n) here (h.reading n)).0,
      covers s h n here,
    )),
    open_sections-AllSections s h n,
  )
  | inr gone ↦ simp gone (open_sections-AllSections s h n)
]

pub calls_retire-IsSystem : (s : System) → IsSystem s → IsSystem (act calls_retire s).1
unfolding act retire_load
calls_retire-IsSystem s h = record {
  reading = h.reading;
  minimum = h.minimum;
  retired = h.retired;
  retiring =
      AllItems-append (ItemHolds s) s.retiring _ h.retiring
        ((omega arith, open_sections-AllSections s h max_rcu_threads), tt);
}

-- Items move from a list to another.
pick-AllItems :
    (P : DeferredDeletion Sections → Type 0) (k : ℕ) (ds : List (DeferredDeletion Sections))
    → AllItems P ds
    → AllItems P (pick k ds).0 × AllItems P (pick k ds).1
pick-AllItems P k [] h = (tt, tt)
pick-AllItems P zero (d ∷ ds) (p, h) = ((p, tt), h)
pick-AllItems P (suc k) (d ∷ ds) (p, h) =
    let (picked, rest) = pick-AllItems P k ds h in (picked, (p, rest))

push_all-IsSystem :
    (s : System) (ds rest : List (DeferredDeletion Sections))
    → IsSystem s
    → AllItems (ItemHolds s) ds
    → AllItems (ItemHolds s) rest
    → IsSystem (record s { rcu = push_all ds s.rcu; retiring = rest })
unfolding retire_push
push_all-IsSystem s [] rest h g k = record {
  reading = h.reading;
  minimum = h.minimum;
  retired = h.retired;
  retiring = k;
}
push_all-IsSystem s (d ∷ ds) rest h (p, g) k =
    let h' : IsSystem (record s { rcu = retire_push d s.rcu }) = record {
      reading = h.reading;
      minimum = h.minimum;
      retired = AllItems-append (ItemHolds s) s.rcu.retired_list (d ∷ []) h.retired (p, tt);
      retiring = h.retiring;
    } in
    push_all-IsSystem (record s { rcu = retire_push d s.rcu }) ds rest h' g k

pub retire_pushes-IsSystem :
    (call : ℕ) (s : System) → IsSystem s → IsSystem (act (retire_pushes call) s).1
unfolding act
retire_pushes-IsSystem call s h =
    let (picked, rest) = pick-AllItems (ItemHolds s) call s.retiring h.retiring in
    push_all-IsSystem s (pick call s.retiring).0 (pick call s.retiring).1 h picked rest

-- The reclaimer goes on, and the global epoch may have grown.
abbrev reclaiming : ℕ → Reclaimer → System → System
reclaiming g reclaimer s = record s {
  rcu = record s.rcu { global_epoch = g };
  reclaimer = reclaimer;
}

reclaiming-IsSystem :
    (g : ℕ) (reclaimer : Reclaimer) (s : System)
    → s.rcu.global_epoch ≤ g
    → MinHolds g reclaimer
    → ((i epoch : ℕ)
        → is_inside (s.readers i) ≡ true
        → (s.rcu.slots i).epoch ≤ epoch
        → Covered s.reclaimer epoch i
        → Covered reclaimer epoch i)
    → IsSystem s
    → IsSystem (reclaiming g reclaimer s)
reclaiming-IsSystem g reclaimer s le m cover h = record {
  reading = λ i.
      ReaderHolds-grows _ g (s.rcu.slots i) (num_slots s.rcu) _ i (s.readers i) le (omega arith)
        (h.reading i);
  minimum = m;
  retired =
      AllItems-map s.rcu.retired_list (ItemHolds-step s (reclaiming g reclaimer s) le keep)
        h.retired;
  retiring =
      AllItems-map s.retiring (ItemHolds-step s (reclaiming g reclaimer s) le keep) h.retiring;
}
  where
    keep :
        (epoch : ℕ) (x : ℕ × ℕ)
        → epoch ≤ s.rcu.global_epoch
        → SectionHolds s epoch x
        → SectionHolds (reclaiming g reclaimer s) epoch x
    keep epoch (i, n) small (inl ended) = inl ended
    keep epoch (i, n) small (inr (e, ins, old, cov)) = inr (e, ins, old, cover i epoch ins old cov)

-- The reclaimer's place, read from the system.
abbrev At : System → Reclaimer → Type 0
At s r = IsSystem (record s { reclaimer = r })

-- What is swept out has no section left open, and the rest is kept as it was.
pub split_retired-Ended :
    (s : System) (min_epoch : ℕ)
    → s.reclaimer ≡ sweeping min_epoch
    → (ds : List (DeferredDeletion Sections)) → AllItems (ItemHolds s) ds
    → AllItems (λ d. AllSections (Ended s) d.deleter) (split_retired min_epoch ds).0
      × AllItems (ItemHolds s) (split_retired min_epoch ds).1
split_retired-Ended s m at_sweep [] h = (tt, tt)
split_retired-Ended s m at_sweep (d ∷ ds) ((small, p), h) =
    let rest = split_retired-Ended s m at_sweep ds h in
    elim (Bool-cases (ltb d.epoch m)) [
      | inl old ↦ simp old ((AllSections-map d.deleter (ended old) p, rest.0), rest.1)
      | inr young ↦ simp young (rest.0, ((small, p), rest.1))
    ]
  where
    ended : ltb d.epoch m ≡ true → (x : ℕ × ℕ) → SectionHolds s d.epoch x → Ended s x
    ended old (i, n) (inl e) = e
    ended old (i, n) (inr (e, ins, le, cov)) =
        let late : m ≤ d.epoch = subst (λ r. Covered r d.epoch i) at_sweep cov in ground arith

pub reclaim_step-IsSystem :
    (now : ℕ) (s : System) (r : Reclaimer)
    → s.rcu.global_epoch + 1 < 2 ^ 64
    → At s r
    → At (record s { rcu = (reclaim_step now r s.rcu).2 }) (reclaim_step now r s.rcu).1
unfolding reclaim_step
reclaim_step-IsSystem now s idle fits h =
    reclaiming-IsSystem _ (advancing s.rcu.global_epoch) (record s { reclaimer = idle })
      (omega arith) tt (λ i e ins old c. tt) h
reclaim_step-IsSystem now s (advancing epoch) fits h =
    reclaiming-IsSystem _ (checking epoch (num_slots s.rcu) 0)
      (record s { reclaimer = advancing epoch }) (omega arith) tt (λ i e ins old c. tt) h
reclaim_step-IsSystem now s (checking epoch num k) fits h = elim (Bool-cases (ltb k num)) [
  | inl more ↦ elim (Bool-cases (blocks now s.rcu.timeout_ms epoch (s.rcu.slots k))) [
    | inl stop ↦
        simp (more, stop)
          (reclaiming-IsSystem _ advanced here (omega arith) tt (λ i e ins old c. tt) h)
    | inr go ↦
        simp (more, go)
          (reclaiming-IsSystem _ (checking epoch num (k + 1)) here (omega arith) tt
            (λ i e ins old c. tt) h)
  ]
  | inr done ↦ simp done (
      reclaiming-IsSystem (add64 s.rcu.global_epoch 1) advanced here (omega arith) tt
        (λ i e ins old c. tt) h)
]
  where
    here : System
    here = record s { reclaimer = checking epoch num k }
reclaim_step-IsSystem now s advanced fits h =
    reclaiming-IsSystem _ (counting s.rcu.global_epoch) (record s { reclaimer = advanced })
      (omega arith) (omega arith) (λ i e ins old c. tt) h
reclaim_step-IsSystem now s (counting min_epoch) fits h =
    reclaiming-IsSystem _ (scanning min_epoch (num_slots s.rcu) 0)
      (record s { reclaimer = counting min_epoch }) (omega arith) h.minimum
      (λ i e ins old c. inr (
        omega arith,
        (inside_lem s.rcu.global_epoch (s.rcu.slots i) (num_slots s.rcu) i (s.readers i) ins
            (h.reading i)).1,
      ))
      h
reclaim_step-IsSystem now s (scanning min_epoch num k) fits h = elim (Bool-cases (ltb k num)) [
  | inl more ↦ simp more (
      reclaiming-IsSystem _ (scanning least num (k + 1)) here (omega arith)
        (ground (arith, h.minimum)) cover h)
  | inr done ↦
      simp done
        (reclaiming-IsSystem _ (sweeping min_epoch) here (omega arith) h.minimum (finish done) h)
]
  where
    here : System
    here = record s { reclaimer = scanning min_epoch num k }

    least : ℕ
    least = if (s.rcu.slots k).active then min min_epoch (s.rcu.slots k).epoch else min_epoch

    cover :
        (i e : ℕ)
        → is_inside (s.readers i) ≡ true
        → (s.rcu.slots i).epoch ≤ e
        → Covered (scanning min_epoch num k) e i
        → Covered (scanning least num (k + 1)) e i
    cover i e ins old c =
        let (_, _, on) =
          inside_lem s.rcu.global_epoch (s.rcu.slots i) (num_slots s.rcu) i (s.readers i) ins
            (h.reading i) in
        elim (Bool-cases (i == k)) [
          | inl same ↦
              let e2 : i ≡ k = (==_iff i k).0 same in
              ground
                (arith, c, ap (λ j. (s.rcu.slots j).active) e2, ap (λ j. (s.rcu.slots j).epoch) e2)
          | inr other ↦ ground (arith, c)
        ]

    finish :
        ltb k num ≡ false
        → (i e : ℕ) → is_inside (s.readers i) ≡ true
        → (s.rcu.slots i).epoch ≤ e
        → Covered (scanning min_epoch num k) e i
        → Covered (sweeping min_epoch) e i
    finish done i e ins old c = ground (arith, c)
reclaim_step-IsSystem now s (sweeping min_epoch) fits h = record {
  reading = h.reading;
  minimum = tt;
  retired =
      AllItems-map (split_retired min_epoch s.rcu.retired_list).1
        (ItemHolds-step here (record here { reclaimer = idle }) (omega arith) forget)
        (split_retired-Ended here min_epoch refl s.rcu.retired_list h.retired).1;
  retiring =
      AllItems-map s.retiring
        (ItemHolds-step here (record here { reclaimer = idle }) (omega arith) forget) h.retiring;
}
  where
    here : System
    here = record s { reclaimer = sweeping min_epoch }

    forget :
        (epoch : ℕ) (x : ℕ × ℕ)
        → epoch ≤ s.rcu.global_epoch
        → SectionHolds here epoch x
        → SectionHolds (record here { reclaimer = idle }) epoch x
    forget epoch (i, n) small (inl ended) = inl ended
    forget epoch (i, n) small (inr (e, ins, old, cov)) = inr (e, ins, old, tt)
