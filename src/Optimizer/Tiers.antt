-- ===== src/Optimizer/Tiers.antt =====
-- Where the objects are after tasks, and what a pass starts from.
use ume.Prelude.{
  ℕ, ◌+◌, ◌≡◌, refl, sym, subst, ◌∙◌, inl, inr, false, Option, none, some, List, [], ◌∷◌, ◌++◌,
  ◌==◌, if◌then◌else◌, ==_iff, Bool-cases, lookup, lookup-insert,
}
use ume.Floating.{Doubles}
use ume.Placement.{PlacementEngine}
use ume.Optimizer.{ResidencyInfo, MigrationTask, MemoryOptimizer}
use ume.Optimizer.Pass.{aged, age_all, Work, moved}

module _ (d : Doubles) where
  abbrev pub arrives : ℕ → MigrationTask d → Option (ResidencyInfo d) → Option (ResidencyInfo d)
  arrives k task none = none
  arrives k task (some res) =
      some (if task.object_id == k then record res { current_tier = task.target_tier } else res)

  -- What is known of an object after the tasks that were accepted: its tier is the target of the
  -- last of them that is for it.
  abbrev pub placed :
      ℕ → List (MigrationTask d) → Option (ResidencyInfo d) → Option (ResidencyInfo d)
  placed k [] known = known
  placed k (task ∷ tasks) known = placed k tasks (arrives k task known)

  abbrev pub sizes : List (MigrationTask d) → ℕ
  sizes [] = 0
  sizes (task ∷ tasks) = task.size_bytes + sizes tasks

  arrives-other :
      (k : ℕ) (task : MigrationTask d) (known : Option (ResidencyInfo d))
      → (task.object_id == k) ≡ false
      → known ≡ arrives k task known
  arrives-other k task none h = refl
  arrives-other k task (some res) h = rw h refl

  pub lookup-moved :
      (k : ℕ) (task : MigrationTask d) (known : Option (ResidencyInfo d))
      (residency : List (ℕ × ResidencyInfo d))
      → lookup task.object_id residency ≡ known
      → lookup k (moved d task.object_id task.target_tier known residency)
        ≡ arrives k task (lookup k residency)
  lookup-moved k task none residency h = elim (Bool-cases (task.object_id == k)) [
    | inl same ↦
        let absent : lookup k residency ≡ none =
          subst (λ i. lookup i residency ≡ none) ((==_iff task.object_id k).0 same) h in
        subst (λ known. known ≡ arrives k task known) (sym absent) refl
    | inr other ↦ arrives-other k task (lookup k residency) other
  ]
  lookup-moved k task (some res) residency h =
      let entry = record res { current_tier = task.target_tier } in
      lookup-insert task.object_id k entry residency ∙ elim (Bool-cases (task.object_id == k)) [
        | inl same ↦
            let present : lookup k residency ≡ some res =
              subst (λ i. lookup i residency ≡ some res) ((==_iff task.object_id k).0 same) h in
            subst
              (λ known. (if task.object_id == k then some entry else known) ≡ arrives k task known)
              (sym present) (rw same refl)
        | inr other ↦ rw other (arrives-other k task (lookup k residency) other)
      ]

  -- What is known of an object, with the temperature aged.
  abbrev pub aged_known : d.Double → Option (ResidencyInfo d) → Option (ResidencyInfo d)
  aged_known rate none = none
  aged_known rate (some res) = some (aged d rate res)

  pub lookup-age_all :
      (rate : d.Double) (k : ℕ) (residency : List (ℕ × ResidencyInfo d)) (n : ℕ)
      → lookup k (age_all d rate residency n).residency_map ≡ aged_known rate (lookup k residency)
  lookup-age_all rate k [] n = refl
  lookup-age_all rate k ((j, res) ∷ residency) n = elim (Bool-cases (j == k)) [
    | inl same ↦ rw same refl
    | inr other ↦ rw other (lookup-age_all rate k residency _)
  ]

  -- The state that the second loop of a pass starts from.
  abbrev pub aged_work : MemoryOptimizer d → PlacementEngine → Work d
  aged_work o placement = record {
    residency_map = (age_all d o.decay_rate o.residency_map o.task_id_counter).residency_map;
    metrics = o.metrics;
    placement = placement;
    remaining = [];
  }

  -- The tasks of a pass: those that wait, and those of the objects that are cold or hot after the
  -- ageing.
  abbrev pub pass_tasks : MemoryOptimizer d → List (MigrationTask d)
  pass_tasks o =
      o.pending_migrations ++ (age_all d o.decay_rate o.residency_map o.task_id_counter).tasks
