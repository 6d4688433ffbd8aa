-- ===== src/Epoch/Outcome.antt =====
-- What a call of `reclaim` of core/src/concurrency/epoch_rcu.cpp leaves behind, with readers that
-- stay where they are.
use ume.Prelude.{
  ℕ, zero, suc, ◌+◌, ◌-◌, ◌/◌, ◌%◌, ◌^◌, ◌≤◌, ◌<◌, min, ◌≡◌, refl, ap, ◌∙◌, ◌⊎◌, inl, inr, true,
  false, not, some, List, [], ◌∷◌, arith, ℕ_discrete, ltb, Bool-cases, add64, filter,
}
use ume.Epoch.{EpochRcu, DeferredDeletion, idle, ThreadEpochSlot, num_slots, blocks, split_retired}
use ume.Epoch.Progress.{
  blocked, min_active_epoch, run_reclaim, reclaim_outcome, run_reclaim-reclaim_outcome,
}

-- A reader of an older epoch, in its critical section for less than the timeout.
abbrev pub HoldsBack : ℕ → ℕ → ℕ → ThreadEpochSlot → Type 0
HoldsBack now timeout_ms epoch slot =
    (slot.active ≡ true)
    × (slot.epoch < epoch)
    × ((now - slot.entry_time_ns) / 1000000 < timeout_ms)

blocks-HoldsBack :
    (now timeout_ms epoch : ℕ) (slot : ThreadEpochSlot)
    → (HoldsBack now timeout_ms epoch slot → blocks now timeout_ms epoch slot ≡ true)
      × (blocks now timeout_ms epoch slot ≡ true → HoldsBack now timeout_ms epoch slot)
blocks-HoldsBack now t epoch slot = (
  (λ (active, old, young). ground (arith, active)),
  λ h. (ground arith, ground arith, ground arith),
)

blocked_by :
    (now t epoch : ℕ) (slots : ℕ → ThreadEpochSlot) (left i j : ℕ)
    → i ≤ j
    → j < i + left
    → HoldsBack now t epoch (slots j)
    → blocked now t epoch slots left i ≡ true
blocked_by now t epoch slots zero i j le lt h = absurd (omega arith)
blocked_by now t epoch slots (suc left) i j le lt h = elim (ℕ_discrete i j) [
  | yes same ↦
      let here : blocks now t epoch (slots i) ≡ true =
        ap (λ k. blocks now t epoch (slots k)) same
        ∙ (blocks-HoldsBack now t epoch (slots j)).0 h in
      rw here refl
  | no other ↦
      ground (arith, blocked_by now t epoch slots left (i + 1) j (omega arith) (omega arith) h)
]

blocked_by_none :
    (now t epoch : ℕ) (slots : ℕ → ThreadEpochSlot) (left i : ℕ)
    → ((j : ℕ) → i ≤ j → j < i + left → ¬ HoldsBack now t epoch (slots j))
    → blocked now t epoch slots left i ≡ false
blocked_by_none now t epoch slots zero i h = refl
blocked_by_none now t epoch slots (suc left) i h =
    elim (Bool-cases (blocks now t epoch (slots i))) [
      | inl stops ↦
          absurd
            (h i (omega arith) (omega arith) ((blocks-HoldsBack now t epoch (slots i)).1 stops))
      | inr goes ↦ rw goes (
          blocked_by_none now t epoch slots left (i + 1)
            (λ j le lt. h j (omega arith) (omega arith)))
    ]

-- Where a minimum over the active slots is reached.
abbrev pub Reached : (ℕ → ThreadEpochSlot) → ℕ → ℕ → ℕ → ℕ → Type 0
Reached slots left i m least =
    (least ≡ m)
    ⊎ ((j : ℕ) × (i ≤ j) × (j < i + left) × ((slots j).active ≡ true) × ((slots j).epoch ≡ least))

widen :
    (slots : ℕ → ThreadEpochSlot) (left i m least : ℕ)
    → Reached slots left (i + 1) m least
    → Reached slots (suc left) i m least
widen slots left i m least (inl e) = inl e
widen slots left i m least (inr (j, le, lt, on, e)) = inr (j, omega arith, omega arith, on, e)

Reached-here :
    (slots : ℕ → ThreadEpochSlot) (left i m least : ℕ)
    → (slots i).active ≡ true
    → Reached slots left (i + 1) (min m (slots i).epoch) least
    → Reached slots (suc left) i m least
Reached-here slots left i m least on (inl e) = elim (Bool-cases (ltb (slots i).epoch m)) [
  | inl smaller ↦
      let here : (slots i).epoch ≡ least = ground (arith, e, smaller) in
      inr (i, omega arith, omega arith, on, here)
  | inr larger ↦ let before : least ≡ m = ground (arith, e, larger) in inl before
]
Reached-here slots left i m least on (inr (j, le, lt, on', e)) =
    inr (j, omega arith, omega arith, on', e)

min_active_epoch-least :
    (slots : ℕ → ThreadEpochSlot) (left i m : ℕ)
    → let least = min_active_epoch slots left i m in
      (least ≤ m)
      × ((j : ℕ) → i ≤ j → j < i + left → (slots j).active ≡ true → least ≤ (slots j).epoch)
      × Reached slots left i m least
min_active_epoch-least slots zero i m = (omega arith, (λ j le lt h. absurd (omega arith)), inl refl)
min_active_epoch-least slots (suc left) i m = elim (Bool-cases (slots i).active) [
  | inl on ↦
      let (low, below, reached) =
        min_active_epoch-least slots left (i + 1) (min m (slots i).epoch) in
      rw on (
        omega (arith, low),
        λ j le lt h. elim (ℕ_discrete i j) [
          | yes same ↦
              let here : (slots i).epoch ≡ (slots j).epoch = ap (λ k. (slots k).epoch) same in
              omega (arith, low, here)
          | no other ↦ below j (omega arith) (omega arith) h
        ],
        Reached-here slots left i m _ on reached,
      )
  | inr off ↦
      let (low, below, reached) = min_active_epoch-least slots left (i + 1) m in
      rw off (
        low,
        λ j le lt h. elim (ℕ_discrete i j) [
          | yes same ↦
              let on : (slots i).active ≡ true = ap (λ k. (slots k).active) same ∙ h in
              ground (arith, on, off)
          | no other ↦ below j (omega arith) (omega arith) h
        ],
        widen slots left i m _ reached,
      )
]

module _ {A : Type 0} where
  split_retired-filter :
      (least : ℕ) (ds : List (DeferredDeletion A))
      → (filter (λ d. ltb d.epoch least) ds ≡ (split_retired least ds).0)
        × (filter (λ d. not (ltb d.epoch least)) ds ≡ (split_retired least ds).1)
  split_retired-filter least [] = (refl, refl)
  split_retired-filter least (d ∷ ds) =
      let (gone, kept) = split_retired-filter least ds in
      elim (Bool-cases (ltb d.epoch least)) [
        | inl old ↦ rw old (ap (◌∷◌ d) gone, kept)
        | inr young ↦ rw young (gone, ap (◌∷◌ d) kept)
      ]

  -- The outcome of a call: the items deleted, and the manager before and after.
  pub record Reclaims (now : ℕ) (r : EpochRcu A) (deleted : List (DeferredDeletion A))
      (r' : EpochRcu A) : Type 0 where
    pub slots : r'.slots ≡ r.slots
    pub held_back :
        (i : ℕ)
        → i < min r.allocated_slots 64
        → HoldsBack now r.timeout_ms r.global_epoch (r.slots i)
        → r'.global_epoch ≡ r.global_epoch
    pub advances :
        ((i : ℕ)
          → i < min r.allocated_slots 64
          → ¬ HoldsBack now r.timeout_ms r.global_epoch (r.slots i))
        → r'.global_epoch ≡ (r.global_epoch + 1) % 2 ^ 64
    pub least : ℕ
    pub not_ahead : least ≤ r'.global_epoch
    pub before_readers :
        (i : ℕ)
        → i < min r.allocated_slots 64
        → (r.slots i).active ≡ true
        → least ≤ (r.slots i).epoch
    pub reached : Reached r.slots (min r.allocated_slots 64) 0 r'.global_epoch least
    pub deletes : filter (λ d. ltb d.epoch least) r.retired_list ≡ deleted
    pub keeps : filter (λ d. not (ltb d.epoch least)) r.retired_list ≡ r'.retired_list

  -- A call of `reclaim` while no other thread takes a step returns within twice the number of slots
  -- and seven steps. The epoch stays where a slot in use, of the first 64, has a reader of an older
  -- epoch that entered less than the timeout ago; if no slot has, it is one higher, with 64 bits.
  -- The items that are deleted are those retired before the least of that epoch and the epochs of
  -- all readers; the others are kept, both in their order, and the slots stay as they are.
  pub run_reclaim-Reclaims :
      (fuel now : ℕ) (r : EpochRcu A)
      → num_slots r + num_slots r + 7 ≤ fuel
      → (deleted : List (DeferredDeletion A)) × (r' : EpochRcu A) × (run_reclaim fuel now idle r
          ≡ some (deleted, r'))
        × Reclaims now r deleted r'
  unfolding reclaim_outcome
  run_reclaim-Reclaims fuel now r le =
      elim (Bool-cases (blocked now r.timeout_ms r.global_epoch r.slots (num_slots r) 0)) [
        | inl stuck ↦
            let m = min_active_epoch r.slots (num_slots r) 0 r.global_epoch in
            let (low, below, reached) =
              min_active_epoch-least r.slots (num_slots r) 0 r.global_epoch in
            let (gone, kept) = split_retired-filter m r.retired_list in
            (
              (split_retired m r.retired_list).0,
              record r { retired_list = (split_retired m r.retired_list).1 },
              run_reclaim-reclaim_outcome fuel now r le ∙ simp stuck refl,
              record {
                slots = refl;
                held_back = λ i lt h. refl;
                advances = λ none_holds. absurd (
                    ground (
                      arith,
                      stuck,
                      blocked_by_none now r.timeout_ms r.global_epoch r.slots (num_slots r) 0
                          (λ j le' lt. none_holds j (omega arith)),
                    ));
                least = m;
                not_ahead = low;
                before_readers = λ i lt h. below i (omega arith) (omega arith) h;
                reached = reached;
                deletes = gone;
                keeps = kept;
              },
            )
        | inr free ↦
            let next = add64 r.global_epoch 1 in
            let m = min_active_epoch r.slots (num_slots r) 0 next in
            let (low, below, reached) = min_active_epoch-least r.slots (num_slots r) 0 next in
            let (gone, kept) = split_retired-filter m r.retired_list in
            (
              (split_retired m r.retired_list).0,
              record r { global_epoch = next; retired_list = (split_retired m r.retired_list).1 },
              run_reclaim-reclaim_outcome fuel now r le ∙ simp free refl,
              record {
                slots = refl;
                held_back = λ i lt h. absurd (
                    ground (
                      arith,
                      free,
                      blocked_by now r.timeout_ms r.global_epoch r.slots (num_slots r) 0 i
                          (omega arith) (omega arith) h,
                    ));
                advances = λ none_holds. refl;
                least = m;
                not_ahead = low;
                before_readers = λ i lt h. below i (omega arith) (omega arith) h;
                reached = reached;
                deletes = gone;
                keeps = kept;
              },
            )
      ]
