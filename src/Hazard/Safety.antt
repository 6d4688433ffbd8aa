-- ===== src/Hazard/Safety.antt =====
-- What is deleted, and what is not.
use ume.Prelude.{
  ℕ, zero, suc, ◌≡◌, refl, sym, ap, ◌∙◌, ◌≢◌, inl, inr, true, false, not, Option, none, some, List,
  [], ◌∷◌, ◌++◌, arith, ◌==◌, Bool-cases, get_elem?, filter,
}
use ume.Hazard.{
  HazardSlot, RetiredItem, HazardPointerDomain, acquire_from, acquire_slot, change_slot,
  release_slot, protect, clear, protected_ptrs, is_protected, sweep, reclaim, retire, Operation,
  acquires, releases, protects, clears, retires, reclaims, reclaims_all, perform, perform_all,
}

-- `reclaim` deletes exactly the retired items that no active slot protects, in order, and keeps
-- exactly the others, in order; it does not touch the slots.
pub reclaim_lem :
    (d : HazardPointerDomain)
    → let protected = λ (item : RetiredItem). is_protected (protected_ptrs d.slots) item.ptr in
      let (deleted, d') = reclaim d in
      (deleted ≡ filter (λ item. not (protected item)) d.retired)
      × (d'.retired ≡ filter protected d.retired)
      × (d'.slots ≡ d.slots)
unfolding reclaim
reclaim_lem d =
    (deleted (protected_ptrs d.slots) d.retired, kept (protected_ptrs d.slots) d.retired, refl)
  where
    deleted :
        (ps : List ℕ) (items : List RetiredItem)
        → (sweep ps items).0 ≡ filter (λ item. not (is_protected ps item.ptr)) items
    deleted ps [] = refl
    deleted ps (item ∷ items) = ground (arith, deleted ps items)

    kept :
        (ps : List ℕ) (items : List RetiredItem)
        → (sweep ps items).1 ≡ filter (λ item. is_protected ps item.ptr) items
    kept ps [] = refl
    kept ps (item ∷ items) = ground (arith, kept ps items)

-- An active slot publishes the pointer.
abbrev pub Guards : ℕ → ℕ → HazardPointerDomain → Type 0
Guards i p d = get_elem? d.slots i ≡ some (record { pointer = p; active = true })

-- No item of the list is the pointer.
abbrev pub Spares : ℕ → List RetiredItem → Type 0
Spares p [] = Unit {0}
Spares p (item ∷ items) = (item.ptr ≢ p) × Spares p items

-- The operation is not one of the slot's owner, and not `reclaim_all`, which deletes all that is
-- retired.
abbrev pub Leaves : ℕ → Operation → Type 0
Leaves i acquires = Unit {0}
Leaves i (releases slot) = slot ≢ i
Leaves i (protects slot ptr) = slot ≢ i
Leaves i (clears slot) = slot ≢ i
Leaves i (retires ptr deleter) = Unit {0}
Leaves i reclaims = Unit {0}
Leaves i reclaims_all = ⊥

abbrev pub AllLeave : ℕ → List Operation → Type 0
AllLeave i [] = Unit {0}
AllLeave i (op ∷ ops) = Leaves i op × AllLeave i ops

abbrev slot_or : HazardSlot → Option HazardSlot → HazardSlot
slot_or s none = s
slot_or s (some t) = t

protected_of_slot :
    (i p : ℕ) (ss : List HazardSlot)
    → p ≢ 0
    → get_elem? ss i ≡ some (record { pointer = p; active = true })
    → is_protected (protected_ptrs ss) p ≡ true
protected_of_slot i p [] ne e = absurd (ground arith)
protected_of_slot zero p (s ∷ ss) ne e =
    let pointer : s.pointer ≡ p = ap (λ o. (slot_or s o).pointer) e in
    let active : s.active ≡ true = ap (λ o. (slot_or s o).active) e in
    ground (arith, pointer, active, ne)
protected_of_slot (suc i) p (s ∷ ss) ne e = ground (arith, protected_of_slot i p ss ne e)

Spares-append : (p : ℕ) (xs ys : List RetiredItem) → Spares p xs → Spares p ys → Spares p (xs ++ ys)
Spares-append p [] ys h g = g
Spares-append p (x ∷ xs) ys (a, h) g = (a, Spares-append p xs ys h g)

sweep-Spares :
    (p : ℕ) (ps : List ℕ) (items : List RetiredItem)
    → is_protected ps p ≡ true
    → Spares p (sweep ps items).0
sweep-Spares p ps [] h = tt
sweep-Spares p ps (item ∷ items) h = elim (Bool-cases (is_protected ps item.ptr)) [
  | inl safe ↦ simp safe (sweep-Spares p ps items h)
  | inr gone ↦ simp gone (
    λ e. true_not_false (sym h ∙ (ap (is_protected ps) (sym e) ∙ gone)),
    sweep-Spares p ps items h,
  )
]
  where
    true_not_false : true ≡ false → ⊥
    true_not_false e = ground arith

reclaim-Guards :
    (i p : ℕ) (d : HazardPointerDomain)
    → p ≢ 0
    → Guards i p d
    → Spares p (reclaim d).0 × Guards i p (reclaim d).1
unfolding reclaim
reclaim-Guards i p d ne g =
    (sweep-Spares p (protected_ptrs d.slots) d.retired (protected_of_slot i p d.slots ne g), g)

retire-Guards :
    (i p ptr : ℕ) (deleter : Option ℕ) (d : HazardPointerDomain)
    → p ≢ 0
    → Guards i p d
    → Spares p (retire ptr deleter d).0 × Guards i p (retire ptr deleter d).1
unfolding retire
retire-Guards i p ptr none d ne g = (tt, g)
retire-Guards i p ptr (some deleter) d ne g = elim (Bool-cases (ptr == 0)) [
  | inl null ↦ simp null (tt, g)
  | inr some_ptr ↦ simp some_ptr (reclaim-Guards i p _ ne g)
]

change_slot_other :
    (i j : ℕ) (f : HazardSlot → HazardSlot) (ss : List HazardSlot)
    → j ≢ i
    → get_elem? (change_slot j f ss) i ≡ get_elem? ss i
change_slot_other i j f [] h = refl
change_slot_other zero zero f (s ∷ ss) h = absurd (h refl)
change_slot_other (suc i) zero f (s ∷ ss) h = refl
change_slot_other zero (suc j) f (s ∷ ss) h = refl
change_slot_other (suc i) (suc j) f (s ∷ ss) h = change_slot_other i j f ss (λ e. h (ap suc e))

-- An active slot is not given out again.
acquire_from-active :
    (i p : ℕ) (ss : List HazardSlot)
    → get_elem? ss i ≡ some (record { pointer = p; active = true })
    → get_elem? (acquire_from ss).1 i ≡ some (record { pointer = p; active = true })
acquire_from-active i p [] e = e
acquire_from-active zero p (s ∷ ss) e =
    let active : s.active ≡ true = ap (λ o. (slot_or s o).active) e in simp active e
acquire_from-active (suc i) p (s ∷ ss) e = ground (arith, acquire_from-active i p ss e)

perform-Guards :
    (i p : ℕ) (op : Operation) (d : HazardPointerDomain)
    → p ≢ 0
    → Leaves i op
    → Guards i p d
    → Spares p (perform op d).0 × Guards i p (perform op d).1
unfolding perform acquire_slot release_slot protect clear
perform-Guards i p acquires d ne l g = (tt, acquire_from-active i p d.slots g)
perform-Guards i p (releases slot) d ne l g = (tt, change_slot_other i slot _ d.slots l ∙ g)
perform-Guards i p (protects slot ptr) d ne l g = (tt, change_slot_other i slot _ d.slots l ∙ g)
perform-Guards i p (clears slot) d ne l g = (tt, change_slot_other i slot _ d.slots l ∙ g)
perform-Guards i p (retires ptr deleter) d ne l g = retire-Guards i p ptr deleter d ne g
perform-Guards i p reclaims d ne l g = reclaim-Guards i p d ne g
perform-Guards i p reclaims_all d ne l g = absurd l

-- As long as an active slot publishes a pointer that is not null, only other slots are released,
-- protected or cleared, and `reclaim_all` is not called, which deletes whatever is protected, no
-- sequence of operations, retirements of that pointer included, deletes it, and the slot goes on
-- publishing it.
pub perform_all-Guards :
    (i p : ℕ) (ops : List Operation) (d : HazardPointerDomain)
    → p ≢ 0
    → AllLeave i ops
    → Guards i p d
    → Spares p (perform_all ops d).0 × Guards i p (perform_all ops d).1
unfolding perform_all
perform_all-Guards i p [] d ne l g = (tt, g)
perform_all-Guards i p (op ∷ ops) d ne (l, ls) g =
    let (spared, kept) = perform-Guards i p op d ne l g in
    let (later, last) = perform_all-Guards i p ops (perform op d).1 ne ls kept in
    (Spares-append p (perform op d).0 _ spared later, last)
