-- ===== src/Epoch/Invariant.antt =====
-- What every interleaving of the threads keeps.
use ume.Prelude.{ℕ, ◌≤◌, ◌<◌, ◌≡◌, ◌⊎◌, true, List, [], ◌∷◌, ◌++◌, arith}
use ume.Epoch.{
  DeferredDeletion, Reader, outside, loaded, timed, stored, inside, Reclaimer, idle, advancing,
  checking, advanced, counting, scanning, sweeping, ThreadEpochSlot, num_slots,
}
use ume.Epoch.System.{System, Sections, is_inside}

-- Where a reader stands, against the global epoch, its slot and the number of slots.
abbrev pub ReaderHolds : ℕ → ThreadEpochSlot → ℕ → ℕ → Reader → Type 0
ReaderHolds global slot count i outside = Unit {0}
ReaderHolds global slot count i (loaded epoch) = (epoch ≤ global) × (i < count)
ReaderHolds global slot count i (timed epoch) = (epoch ≤ global) × (i < count)
ReaderHolds global slot count i stored = (slot.epoch ≤ global) × (i < count)
ReaderHolds global slot count i inside = (slot.epoch ≤ global) × (i < count) × (slot.active ≡ true)

-- The minimum that the reclaimer has so far is not behind the global epoch.
abbrev pub MinHolds : ℕ → Reclaimer → Type 0
MinHolds global (counting min_epoch) = min_epoch ≤ global
MinHolds global (scanning min_epoch num i) = min_epoch ≤ global
MinHolds global (sweeping min_epoch) = min_epoch ≤ global
MinHolds global idle = Unit {0}
MinHolds global (advancing epoch) = Unit {0}
MinHolds global (checking epoch num i) = Unit {0}
MinHolds global advanced = Unit {0}

-- The reclaimer has taken the reader in slot `i` into account, or has its slot ahead of it.
abbrev pub Covered : Reclaimer → ℕ → ℕ → Type 0
Covered (scanning min_epoch num k) epoch i = (min_epoch ≤ epoch) ⊎ ((k ≤ i) × (i < num))
Covered (sweeping min_epoch) epoch i = min_epoch ≤ epoch
Covered (counting min_epoch) epoch i = Unit {0}
Covered idle epoch i = Unit {0}
Covered (advancing e) epoch i = Unit {0}
Covered (checking e num k) epoch i = Unit {0}
Covered advanced epoch i = Unit {0}

-- A critical section that was open when an item of this epoch was retired: it has been left, or its
-- reader is inside, of no later epoch, and covered.
abbrev pub SectionHolds : System → ℕ → ℕ × ℕ → Type 0
SectionHolds s epoch (i, number) =
    (number < s.sections i)
    ⊎ ((number ≡ s.sections i)
        × (is_inside (s.readers i) ≡ true)
        × ((s.rcu.slots i).epoch ≤ epoch)
        × Covered s.reclaimer epoch i)

abbrev pub AllSections : (ℕ × ℕ → Type 0) → Sections → Type 0
AllSections P [] = Unit {0}
AllSections P (x ∷ xs) = P x × AllSections P xs

abbrev pub ItemHolds : System → DeferredDeletion Sections → Type 0
ItemHolds s d = (d.epoch ≤ s.rcu.global_epoch) × AllSections (SectionHolds s d.epoch) d.deleter

abbrev pub AllItems :
    (DeferredDeletion Sections → Type 0) → List (DeferredDeletion Sections) → Type 0
AllItems P [] = Unit {0}
AllItems P (d ∷ ds) = P d × AllItems P ds

pub record IsSystem (s : System) : Type 0 where
  pub reading :
      (i : ℕ) → ReaderHolds s.rcu.global_epoch (s.rcu.slots i) (num_slots s.rcu) i (s.readers i)
  pub minimum : MinHolds s.rcu.global_epoch s.reclaimer
  pub retired : AllItems (ItemHolds s) s.rcu.retired_list
  pub retiring : AllItems (ItemHolds s) s.retiring

pub AllSections-map :
    {P Q : ℕ × ℕ → Type 0} (xs : Sections)
    → ((x : ℕ × ℕ) → P x → Q x)
    → AllSections P xs
    → AllSections Q xs
AllSections-map [] f h = tt
AllSections-map (x ∷ xs) f (p, h) = (f x p, AllSections-map xs f h)

pub AllItems-map :
    {P Q : DeferredDeletion Sections → Type 0} (ds : List (DeferredDeletion Sections))
    → ((d : DeferredDeletion Sections) → P d → Q d)
    → AllItems P ds
    → AllItems Q ds
AllItems-map [] f h = tt
AllItems-map (d ∷ ds) f (p, h) = (f d p, AllItems-map ds f h)

pub AllItems-append :
    (P : DeferredDeletion Sections → Type 0) (ds es : List (DeferredDeletion Sections))
    → AllItems P ds
    → AllItems P es
    → AllItems P (ds ++ es)
AllItems-append P [] es h g = g
AllItems-append P (d ∷ ds) es (p, h) g = (p, AllItems-append P ds es h g)

-- A step after which every section of an item is still in order keeps the items.
pub ItemHolds-step :
    (s s' : System)
    → s.rcu.global_epoch ≤ s'.rcu.global_epoch
    → ((epoch : ℕ) (x : ℕ × ℕ)
        → epoch ≤ s.rcu.global_epoch
        → SectionHolds s epoch x
        → SectionHolds s' epoch x)
    → (d : DeferredDeletion Sections) → ItemHolds s d
    → ItemHolds s' d
ItemHolds-step s s' grows keep d (small, h) =
    (omega arith, AllSections-map d.deleter (λ x. keep d.epoch x small) h)

pub ReaderHolds-grows :
    (g g' : ℕ) (cell : ThreadEpochSlot) (n n' i : ℕ) (reader : Reader)
    → g ≤ g'
    → n ≤ n'
    → ReaderHolds g cell n i reader
    → ReaderHolds g' cell n' i reader
ReaderHolds-grows g g' cell n n' i outside a b h = tt
ReaderHolds-grows g g' cell n n' i (loaded epoch) a b (x, y) = (omega arith, omega arith)
ReaderHolds-grows g g' cell n n' i (timed epoch) a b (x, y) = (omega arith, omega arith)
ReaderHolds-grows g g' cell n n' i stored a b (x, y) = (omega arith, omega arith)
ReaderHolds-grows g g' cell n n' i inside a b (x, y, z) = (omega arith, omega arith, z)

-- What a reader that is inside its critical section has.
pub inside_lem :
    (g : ℕ) (cell : ThreadEpochSlot) (n i : ℕ) (reader : Reader)
    → is_inside reader ≡ true
    → ReaderHolds g cell n i reader
    → (cell.epoch ≤ g) × (i < n) × (cell.active ≡ true)
inside_lem g cell n i inside ins h = h
inside_lem g cell n i outside ins h = ground arith
inside_lem g cell n i (loaded epoch) ins h = ground arith
inside_lem g cell n i (timed epoch) ins h = ground arith
inside_lem g cell n i stored ins h = ground arith

-- The critical section has been left.
abbrev pub Ended : System → ℕ × ℕ → Type 0
Ended s (i, number) = number < s.sections i
