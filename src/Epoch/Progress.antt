-- ===== src/Epoch/Progress.antt =====
-- `reclaim` of core/src/concurrency/epoch_rcu.cpp in a call that no other thread disturbs: it ends,
-- and without readers it frees everything.
use ume.Prelude.{
  ℕ, zero, suc, ◌+◌, ◌^◌, ◌≤◌, ◌<◌, min, ◌≡◌, refl, ◌∙◌, inl, inr, Bool, true, false, ◌||◌, Option,
  none, some, List, [], ◌∷◌, ◌++◌, arith, ltb, if◌then◌else◌, Bool-cases, add64,
}
use ume.Epoch.{
  EpochRcu, DeferredDeletion, Reclaimer, idle, advancing, checking, advanced, counting, scanning,
  sweeping, ThreadEpochSlot, num_slots, blocks, split_retired, reclaim_step,
}

abbrev is_idle : Reclaimer → Bool
is_idle idle = true
is_idle (advancing epoch) = false
is_idle (checking epoch num i) = false
is_idle advanced = false
is_idle (counting m) = false
is_idle (scanning m num i) = false
is_idle (sweeping m) = false

-- The slots that the scan of `try_advance_epoch` has left keep the epoch from advancing.
abbrev pub blocked : ℕ → ℕ → ℕ → (ℕ → ThreadEpochSlot) → ℕ → ℕ → Bool
blocked now timeout_ms epoch slots zero i = false
blocked now timeout_ms epoch slots (suc left) i =
    blocks now timeout_ms epoch (slots i) || blocked now timeout_ms epoch slots left (i + 1)

-- The minimum after the slots that the scan has left.
abbrev pub min_active_epoch : (ℕ → ThreadEpochSlot) → ℕ → ℕ → ℕ → ℕ
min_active_epoch slots zero i m = m
min_active_epoch slots (suc left) i m =
    min_active_epoch slots left (i + 1) (if (slots i).active then min m (slots i).epoch else m)

-- No reader is in its critical section, in the slots that a scan has left.
abbrev pub NoReader : (ℕ → ThreadEpochSlot) → ℕ → ℕ → Type 0
NoReader slots zero i = Unit {0}
NoReader slots (suc left) i = ((slots i).active ≡ false) × NoReader slots left (i + 1)

blocked-NoReader :
    (now timeout_ms epoch : ℕ) (slots : ℕ → ThreadEpochSlot) (left i : ℕ)
    → NoReader slots left i
    → (blocked now timeout_ms epoch slots left i ≡ false)
      × ((m : ℕ) → min_active_epoch slots left i m ≡ m)
blocked-NoReader now t epoch slots zero i h = (refl, λ m. refl)
blocked-NoReader now t epoch slots (suc left) i (off, h) =
    let (b, m) = blocked-NoReader now t epoch slots left (i + 1) h in
    (simp (off, b), λ k. simp off (m k))

module _ {A : Type 0} where
  -- The calling thread takes steps until `reclaim` returns.
  unfoldable pub run_reclaim :
      ℕ → ℕ → Reclaimer → EpochRcu A → Option (List (DeferredDeletion A) × EpochRcu A)
  run_reclaim zero now p r = none
  run_reclaim (suc fuel) now p r =
      let (deleted, next, r') = reclaim_step now p r in
      let rest = run_reclaim fuel now next r' in if is_idle next then some (deleted, r') else rest

  abbrev pub try_advance_epoch : ℕ → EpochRcu A → EpochRcu A
  try_advance_epoch now r =
      if blocked now r.timeout_ms r.global_epoch r.slots (num_slots r) 0
      then r
      else record r { global_epoch = add64 r.global_epoch 1 }

  abbrev swept : ℕ → EpochRcu A → List (DeferredDeletion A) × EpochRcu A
  swept m r =
      let (to_delete, kept) = split_retired m r.retired_list in
      (to_delete, record r { retired_list = kept })

  -- What the steps of `reclaim` come to, computed at once: the items deleted, and the manager.
  unfoldable pub reclaim_outcome : ℕ → EpochRcu A → List (DeferredDeletion A) × EpochRcu A
  reclaim_outcome now r =
      let r' = try_advance_epoch now r in
      swept (min_active_epoch r'.slots (num_slots r') 0 r'.global_epoch) r'

  -- The destructor, with the items that it deletes.
  abbrev pub drop_rcu : ℕ → EpochRcu A → List (DeferredDeletion A)
  drop_rcu now r = let (deleted, r') = reclaim_outcome now r in deleted ++ r'.retired_list

  sweeping_run :
      (fuel now m : ℕ) (r : EpochRcu A)
      → 1 ≤ fuel
      → run_reclaim fuel now (sweeping m) r ≡ some (swept m r)
  unfolding run_reclaim reclaim_step
  sweeping_run zero now m r le = ground arith
  sweeping_run (suc fuel) now m r le = refl

  scanning_run :
      (fuel now m num left i : ℕ) (r : EpochRcu A)
      → i + left ≡ num
      → left + 2 ≤ fuel
      → run_reclaim fuel now (scanning m num i) r
        ≡ some (swept (min_active_epoch r.slots left i m) r)
  unfolding run_reclaim reclaim_step
  scanning_run zero now m num left i r e le = ground arith
  scanning_run (suc fuel) now m num zero i r e le =
      let done : ltb i num ≡ false = ground arith in
      simp done (sweeping_run fuel now m r (omega arith))
  scanning_run (suc fuel) now m num (suc left) i r e le =
      let more : ltb i num ≡ true = ground arith in
      simp more (scanning_run fuel now _ num left (i + 1) r (omega arith) (omega arith))

  advanced_run :
      (fuel now : ℕ) (r : EpochRcu A)
      → num_slots r + 4 ≤ fuel
      → run_reclaim fuel now advanced r
        ≡ some (swept (min_active_epoch r.slots (num_slots r) 0 r.global_epoch) r)
  unfolding run_reclaim reclaim_step
  advanced_run zero now r le = ground arith
  advanced_run (suc zero) now r le = ground arith
  advanced_run (suc (suc fuel)) now r le =
      scanning_run fuel now r.global_epoch (num_slots r) (num_slots r) 0 r (omega arith)
        (omega arith)

  checking_run :
      (fuel now epoch num left i : ℕ) (r : EpochRcu A)
      → num ≡ num_slots r
      → i + left ≡ num
      → left + num + 5 ≤ fuel
      → run_reclaim fuel now (checking epoch num i) r ≡ (
          let r' =
            if blocked now r.timeout_ms epoch r.slots left i
            then r
            else record r { global_epoch = add64 r.global_epoch 1 } in
          some (swept (min_active_epoch r'.slots (num_slots r') 0 r'.global_epoch) r'))
  unfolding run_reclaim reclaim_step
  checking_run zero now epoch num left i r n l le = ground arith
  checking_run (suc fuel) now epoch num zero i r n l le =
      let done : ltb i num ≡ false = ground arith in
      simp done (advanced_run fuel now _ (omega arith))
  checking_run (suc fuel) now epoch num (suc left) i r n l le =
      let more : ltb i num ≡ true = ground arith in
      elim (Bool-cases (blocks now r.timeout_ms epoch (r.slots i))) [
        | inl stop ↦ simp (more, stop) (advanced_run fuel now r (omega arith))
        | inr go ↦
            simp (more, go)
              (checking_run fuel now epoch num left (i + 1) r n (omega arith) (omega arith))
      ]

  pub run_reclaim-reclaim_outcome :
      (fuel now : ℕ) (r : EpochRcu A)
      → num_slots r + num_slots r + 7 ≤ fuel
      → run_reclaim fuel now idle r ≡ some (reclaim_outcome now r)
  unfolding run_reclaim reclaim_step reclaim_outcome
  run_reclaim-reclaim_outcome zero now r le = ground arith
  run_reclaim-reclaim_outcome (suc zero) now r le = ground arith
  run_reclaim-reclaim_outcome (suc (suc fuel)) now r le =
      checking_run fuel now r.global_epoch (num_slots r) (num_slots r) 0 r refl (omega arith)
        (omega arith)

  abbrev pub Retired : ℕ → List (DeferredDeletion A) → Type 0
  Retired epoch [] = Unit {0}
  Retired epoch (d ∷ ds) = (d.epoch ≤ epoch) × Retired epoch ds

  split_retired-all :
      (epoch : ℕ) (ds : List (DeferredDeletion A))
      → Retired epoch ds
      → split_retired (epoch + 1) ds ≡ (ds, [])
  split_retired-all epoch [] h = refl
  split_retired-all epoch (d ∷ ds) (le, h) =
      let old : ltb d.epoch (epoch + 1) ≡ true = ground arith in
      simp (old, split_retired-all epoch ds h)

  -- Without readers, a call of `reclaim` returns and deletes every item retired until then, and the
  -- epoch advances; the clock and the timeout do not matter.
  pub reclaim_without_readers :
      (fuel now : ℕ) (r : EpochRcu A)
      → num_slots r + num_slots r + 7 ≤ fuel
      → r.global_epoch + 1 < 2 ^ 64
      → NoReader r.slots (num_slots r) 0
      → Retired r.global_epoch r.retired_list
      → run_reclaim fuel now idle r
        ≡ some (r.retired_list, record r { global_epoch = r.global_epoch + 1; retired_list = [] })
  unfolding reclaim_outcome
  reclaim_without_readers fuel now r le fits quiet old =
      let (b, m) = blocked-NoReader now r.timeout_ms r.global_epoch r.slots (num_slots r) 0 quiet in
      let next : add64 r.global_epoch 1 ≡ r.global_epoch + 1 = omega arith in
      run_reclaim-reclaim_outcome fuel now r le
      ∙ simp (b, next, m (r.global_epoch + 1), split_retired-all r.global_epoch r.retired_list old)
