-- ===== src/Epoch.antt =====
-- `EpochRcu` of core/src/concurrency/epoch_rcu.cpp. What a deleter is, is a parameter. A call is
-- cut into the steps between which other threads may run; a step of a scan looks at one slot, and
-- the atomic accesses are seen by all threads in one order. `now` is the clock's reading. The slots
-- are a function, of which the code uses the first `kMaxRcuThreads`.
pub mod System
pub mod Invariant
mod Readers
mod Reclaims
pub mod Safety
pub mod Progress
pub mod Outcome
mod Tests
use ume.Prelude.{
  ℕ, ◌+◌, ◌-◌, ◌/◌, min, Bool, true, false, ◌&&◌, Option, none, some, List, [], ◌∷◌, ◌++◌, ltb, leb,
  ◌==◌, if◌then◌else◌, add64, length, put,
}

abbrev pub max_rcu_threads : ℕ
max_rcu_threads = 64

pub record ThreadEpochSlot : Type 0 where
  pub epoch : ℕ
  pub active : Bool
  pub entry_time_ns : ℕ
  pub thread_id : ℕ

pub record DeferredDeletion (A : Type 0) : Type 0 where
  pub epoch : ℕ
  pub deleter : A

pub record EpochRcu (A : Type 0) : Type 0 where
  pub global_epoch : ℕ
  pub slots : ℕ → ThreadEpochSlot
  pub allocated_slots : ℕ
  pub retired_list : List (DeferredDeletion A)
  pub timeout_ms : ℕ

-- Where a reader stands in `enter`, or that it is outside or inside its critical section.
pub data Reader : Type 0 where
  outside : Reader
  loaded : (epoch : ℕ) → Reader
  timed : (epoch : ℕ) → Reader
  stored : Reader
  inside : Reader

-- Where a thread stands in `reclaim`: before the loads of `try_advance_epoch`, in its scan of the
-- slots, before the load of the minimum, before the count of slots, in the second scan, before the
-- sweep.
pub data Reclaimer : Type 0 where
  idle : Reclaimer
  advancing : (epoch : ℕ) → Reclaimer
  checking : (epoch num_slots slot : ℕ) → Reclaimer
  advanced : Reclaimer
  counting : (min_epoch : ℕ) → Reclaimer
  scanning : (min_epoch num_slots slot : ℕ) → Reclaimer
  sweeping : (min_epoch : ℕ) → Reclaimer

abbrev pub empty_slot : ThreadEpochSlot
empty_slot = record { epoch = 0; active = false; entry_time_ns = 0; thread_id = 0 }

-- Whether the slot keeps `try_advance_epoch` from advancing: a reader of an older epoch that has
-- not timed out.
abbrev pub blocks : ℕ → ℕ → ℕ → ThreadEpochSlot → Bool
blocks now timeout_ms epoch slot =
    slot.active
    && (ltb slot.epoch epoch
        && ltb (if ltb slot.entry_time_ns now then (now - slot.entry_time_ns) / 1000000 else 0)
            timeout_ms)

-- The items whose epoch is before the minimum, and the others.
abbrev pub split_retired :
    {A : Type 0}
    → ℕ
    → List (DeferredDeletion A)
    → List (DeferredDeletion A) × List (DeferredDeletion A)
split_retired min_epoch [] = ([], [])
split_retired min_epoch (d ∷ ds) =
    let (to_delete, kept) = split_retired min_epoch ds in
    if ltb d.epoch min_epoch then (d ∷ to_delete, kept) else (to_delete, d ∷ kept)

-- The caller's thread-local slot after another is given up.
abbrev forget : ℕ → Option ℕ → Option ℕ
forget slot none = none
forget slot (some mine) = if mine == slot then none else some mine

module _ {A : Type 0} where
  -- The constructor.
  abbrev pub new_rcu : ℕ → EpochRcu A
  new_rcu timeout_ms = record {
    global_epoch = 1;
    slots = λ i. empty_slot;
    allocated_slots = 0;
    retired_list = [];
    timeout_ms = timeout_ms;
  }

  -- `std::min(allocated_slots_, kMaxRcuThreads)`.
  abbrev pub num_slots : EpochRcu A → ℕ
  num_slots r = min r.allocated_slots max_rcu_threads

  -- The thread-local slot goes in, and comes out beside the result.
  unfoldable pub register_thread : Option ℕ → EpochRcu A → ℕ × Option ℕ × EpochRcu A
  register_thread (some slot) r = (slot, some slot, r)
  register_thread none r =
      let slot = if leb max_rcu_threads r.allocated_slots then 0 else r.allocated_slots in
      (slot, some slot, record r { allocated_slots = add64 r.allocated_slots 1 })

  unfoldable pub unregister_thread : ℕ → Option ℕ → EpochRcu A → Option ℕ × EpochRcu A
  unregister_thread slot mine r = (
    forget slot mine,
    if ltb slot max_rcu_threads
        then record r {
          slots = put slot (record (r.slots slot) { active = false; epoch = 0 }) r.slots;
        }
        else r,
  )

  -- A step of `enter`: the load of the epoch, then three stores. A slot out of range is ignored.
  unfoldable pub enter_step : ℕ → ℕ → Reader → EpochRcu A → Reader × EpochRcu A
  enter_step now slot outside r =
      if leb max_rcu_threads slot then (inside, r) else (loaded r.global_epoch, r)
  enter_step now slot (loaded epoch) r = (
    timed epoch,
    record r { slots = put slot (record (r.slots slot) { entry_time_ns = now }) r.slots },
  )
  enter_step now slot (timed epoch) r =
      (stored, record r { slots = put slot (record (r.slots slot) { epoch = epoch }) r.slots })
  enter_step now slot stored r =
      (inside, record r { slots = put slot (record (r.slots slot) { active = true }) r.slots })
  enter_step now slot inside r = (inside, r)

  unfoldable pub exit : ℕ → EpochRcu A → EpochRcu A
  exit slot r =
      if leb max_rcu_threads slot
      then r
      else record r { slots = put slot (record (r.slots slot) { active = false }) r.slots }

  -- `retire` returns on an empty deleter; else it loads the epoch for the item and then, under the
  -- lock, appends it.
  unfoldable pub retire_load : Option A → EpochRcu A → List (DeferredDeletion A)
  retire_load none r = []
  retire_load (some deleter) r = record { epoch = r.global_epoch; deleter = deleter } ∷ []

  unfoldable pub retire_push : DeferredDeletion A → EpochRcu A → EpochRcu A
  retire_push item r = record r { retired_list = r.retired_list ++ item ∷ [] }

  -- A step of `reclaim`, with the items that it deletes.
  unfoldable pub reclaim_step :
      ℕ → Reclaimer → EpochRcu A → List (DeferredDeletion A) × Reclaimer × EpochRcu A
  reclaim_step now idle r = ([], advancing r.global_epoch, r)
  reclaim_step now (advancing epoch) r = ([], checking epoch (num_slots r) 0, r)
  reclaim_step now (checking epoch num i) r =
      if ltb i num
      then (if blocks now r.timeout_ms epoch (r.slots i)
          then ([], advanced, r)
          else ([], checking epoch num (i + 1), r))
      else ([], advanced, record r { global_epoch = add64 r.global_epoch 1 })
  reclaim_step now advanced r = ([], counting r.global_epoch, r)
  reclaim_step now (counting min_epoch) r = ([], scanning min_epoch (num_slots r) 0, r)
  reclaim_step now (scanning min_epoch num i) r =
      if ltb i num
      then (
        [],
        scanning (if (r.slots i).active then min min_epoch (r.slots i).epoch else min_epoch) num
            (i + 1),
        r,
      )
      else ([], sweeping min_epoch, r)
  reclaim_step now (sweeping min_epoch) r =
      let (to_delete, kept) = split_retired min_epoch r.retired_list in
      (to_delete, idle, record r { retired_list = kept })

  unfoldable pub pending_reclamation_count : EpochRcu A → ℕ
  pending_reclamation_count r = length r.retired_list
