-- ===== src/Hazard.antt =====
-- `HazardPointerDomain` of core/include/ume/concurrency/hazard_pointers.h. A pointer is a number, 0
-- for null; a deleter is a number, `none` for an empty function. An operation is one step, and the
-- deleter calls that it makes are in its result.
pub mod Safety
mod Tests
use ume.Prelude.{
  ℕ, zero, suc, Bool, true, false, not, ◌&&◌, ◌||◌, Option, none, some, List, [], ◌∷◌, ◌++◌, ◌==◌,
  if◌then◌else◌, replicate,
}

pub record HazardSlot : Type 0 where
  pub pointer : ℕ
  pub active : Bool

pub record RetiredItem : Type 0 where
  pub ptr : ℕ
  pub deleter : ℕ

pub record HazardPointerDomain : Type 0 where
  pub slots : List HazardSlot
  pub retired : List RetiredItem

abbrev pub max_hazard_slots : ℕ
max_hazard_slots = 128

abbrev pub new_domain : HazardPointerDomain
new_domain = record {
  slots = replicate max_hazard_slots (record { pointer = 0; active = false });
  retired = [];
}

-- The first slot that is not active becomes active; the number of slots, if there is none.
abbrev pub acquire_from : List HazardSlot → ℕ × List HazardSlot
acquire_from [] = (0, [])
acquire_from (s ∷ ss) =
    let (i, rest) = acquire_from ss in
    if s.active then (suc i, s ∷ rest) else (0, record s { active = true } ∷ ss)

unfoldable pub acquire_slot : HazardPointerDomain → ℕ × HazardPointerDomain
acquire_slot d = let (i, slots) = acquire_from d.slots in (i, record d { slots = slots })

-- A change of one slot; an index out of range changes nothing.
abbrev pub change_slot : ℕ → (HazardSlot → HazardSlot) → List HazardSlot → List HazardSlot
change_slot i f [] = []
change_slot zero f (s ∷ ss) = f s ∷ ss
change_slot (suc i) f (s ∷ ss) = s ∷ change_slot i f ss

unfoldable pub release_slot : ℕ → HazardPointerDomain → HazardPointerDomain
release_slot i d = record d {
  slots = change_slot i (λ s. record s { pointer = 0; active = false }) d.slots;
}

unfoldable pub protect : ℕ → ℕ → HazardPointerDomain → HazardPointerDomain
protect i ptr d = record d { slots = change_slot i (λ s. record s { pointer = ptr }) d.slots }

unfoldable pub clear : ℕ → HazardPointerDomain → HazardPointerDomain
clear i d = record d { slots = change_slot i (λ s. record s { pointer = 0 }) d.slots }

-- The pointers that active slots publish.
abbrev pub protected_ptrs : List HazardSlot → List ℕ
protected_ptrs [] = []
protected_ptrs (s ∷ ss) =
    let rest = protected_ptrs ss in
    if s.active && not (s.pointer == 0) then s.pointer ∷ rest else rest

abbrev pub is_protected : List ℕ → ℕ → Bool
is_protected [] ptr = false
is_protected (p ∷ ps) ptr = (p == ptr) || is_protected ps ptr

-- The items that are deleted, and those that stay.
abbrev pub sweep : List ℕ → List RetiredItem → List RetiredItem × List RetiredItem
sweep ps [] = ([], [])
sweep ps (item ∷ items) =
    let (deleted, still) = sweep ps items in
    if is_protected ps item.ptr then (deleted, item ∷ still) else (item ∷ deleted, still)

-- The deleted items, whose number is returned, and the domain.
unfoldable pub reclaim : HazardPointerDomain → List RetiredItem × HazardPointerDomain
reclaim d =
    let (deleted, still) = sweep (protected_ptrs d.slots) d.retired in
    (deleted, record d { retired = still })

unfoldable pub retire : ℕ → Option ℕ → HazardPointerDomain → List RetiredItem × HazardPointerDomain
retire ptr none d = ([], d)
retire ptr (some deleter) d =
    if ptr == 0
    then ([], d)
    else reclaim (record d { retired = d.retired ++ record { ptr = ptr; deleter = deleter } ∷ [] })

unfoldable pub reclaim_all : HazardPointerDomain → List RetiredItem × HazardPointerDomain
reclaim_all d = (d.retired, record d { retired = [] })

-- The operations on a domain.
pub data Operation : Type 0 where
  acquires : Operation
  releases : (slot : ℕ) → Operation
  protects : (slot ptr : ℕ) → Operation
  clears : (slot : ℕ) → Operation
  retires : (ptr : ℕ) (deleter : Option ℕ) → Operation
  reclaims : Operation
  reclaims_all : Operation

unfoldable pub perform : Operation → HazardPointerDomain → List RetiredItem × HazardPointerDomain
perform acquires d = ([], (acquire_slot d).1)
perform (releases slot) d = ([], release_slot slot d)
perform (protects slot ptr) d = ([], protect slot ptr d)
perform (clears slot) d = ([], clear slot d)
perform (retires ptr deleter) d = retire ptr deleter d
perform reclaims d = reclaim d
perform reclaims_all d = reclaim_all d

-- What a sequence of operations deletes, in order.
unfoldable pub perform_all :
    List Operation → HazardPointerDomain → List RetiredItem × HazardPointerDomain
perform_all [] d = ([], d)
perform_all (op ∷ ops) d =
    let (deleted, d') = perform op d in
    let (later, d'') = perform_all ops d' in (deleted ++ later, d'')
