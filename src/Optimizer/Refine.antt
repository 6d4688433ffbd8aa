-- ===== src/Optimizer/Refine.antt =====
-- A pass as what it promises: the tasks are offered to the placement engine in order, and those
-- that it takes are carried out.
use ume.Prelude.{
  ℕ, ◌+◌, ◌%◌, ◌^◌, ◌≡◌, refl, sym, ap, subst, ◌∙◌, List, [], ◌∷◌, ◌++◌, append_assoc, append-nil,
  arith, add64, length, lookup,
}
use ume.Floating.{Doubles}
use ume.Status.{Result, ok, err}
use ume.Placement.{PlacementEngine, enqueue_request}
use ume.Optimizer.{MigrationTask, MemoryOptimizer, get_residency, residency_found}
use ume.Optimizer.Pass.{decision_of, Work, settle, process, process_all, optimize_pass}
use ume.Optimizer.Tiers.{
  placed, sizes, lookup-moved, aged_known, lookup-age_all, aged_work, pass_tasks,
}

module _ (d : Doubles) (placed_at : MigrationTask d → ℕ)
    (others : MigrationTask d → PlacementEngine → PlacementEngine) where
  -- Which of the tasks the placement engine takes, in order, and which it refuses.
  pub record Offer : Type 0 where
    pub accepted : List (MigrationTask d)
    pub refused : List (MigrationTask d)
    pub placement : PlacementEngine

  abbrev pub noted : MigrationTask d → Result ℕ → Offer → Offer
  noted task (ok id) o = record o { accepted = task ∷ o.accepted }
  noted task (err s) o = record o { refused = task ∷ o.refused }

  abbrev pub offer_all : List (MigrationTask d) → PlacementEngine → Offer
  offer_all [] placement = record { accepted = []; refused = []; placement = placement }
  offer_all (task ∷ tasks) placement =
      let (answer, placement') =
        enqueue_request (placed_at task) (decision_of d task) (others task placement) in
      noted task answer (offer_all tasks placement')

  -- How the loop has gone on from a state, for what is offered.
  pub record Carries (o : Offer) (w w' : Work d) : Type 0 where
    pub placement : w'.placement ≡ o.placement
    pub remaining : w'.remaining ≡ w.remaining ++ o.refused
    pub residency :
        (k : ℕ) → lookup k w'.residency_map ≡ placed d k o.accepted (lookup k w.residency_map)
    pub attempted :
        w'.metrics.migrations_attempted % 2 ^ 64
        ≡ (w.metrics.migrations_attempted + length o.accepted + length o.refused) % 2 ^ 64
    pub completed :
        w'.metrics.migrations_completed % 2 ^ 64
        ≡ (w.metrics.migrations_completed + length o.accepted) % 2 ^ 64
    pub cancelled :
        w'.metrics.migrations_cancelled % 2 ^ 64
        ≡ (w.metrics.migrations_cancelled + length o.refused) % 2 ^ 64
    pub bandwidth :
        w'.metrics.total_bandwidth_used_bytes % 2 ^ 64
        ≡ (w.metrics.total_bandwidth_used_bytes + sizes d o.accepted) % 2 ^ 64

  settled-Carries :
      (task : MigrationTask d) (answer : Result ℕ) (placement : PlacementEngine) (o : Offer)
      (w w' : Work d)
      → Carries o
          (settle d task answer (record w {
            placement = placement;
            metrics = record (w.metrics) {
              migrations_attempted = add64 w.metrics.migrations_attempted 1;
            };
          }))
          w'
      → Carries (noted task answer o) w w'
  settled-Carries task (ok id) placement o w w' c = record {
    placement = c.placement;
    remaining = c.remaining;
    residency = λ k.
        c.residency k
        ∙ ap (placed d k o.accepted)
            (lookup-moved d k task (lookup task.object_id w.residency_map) w.residency_map refl);
    attempted = omega (arith, c.attempted);
    completed = omega (arith, c.completed);
    cancelled = omega (arith, c.cancelled);
    bandwidth = omega (arith, c.bandwidth);
  }
  settled-Carries task (err s) placement o w w' c = record {
    placement = c.placement;
    remaining = c.remaining ∙ append_assoc w.remaining (task ∷ []) o.refused;
    residency = c.residency;
    attempted = omega (arith, c.attempted);
    completed = omega (arith, c.completed);
    cancelled = omega (arith, c.cancelled);
    bandwidth = omega (arith, c.bandwidth);
  }

  placement-settle :
      (task : MigrationTask d) (answer : Result ℕ) (w : Work d)
      → (settle d task answer w).placement ≡ w.placement
  placement-settle task (ok id) w = refl
  placement-settle task (err s) w = refl

  process_all-Carries :
      (tasks : List (MigrationTask d)) (w : Work d)
      → Carries (offer_all tasks w.placement) w (process_all d placed_at others tasks w)
  process_all-Carries [] w = record {
    placement = refl;
    remaining = sym (append-nil w.remaining);
    residency = λ k. refl;
    attempted = omega arith;
    completed = omega arith;
    cancelled = omega arith;
    bandwidth = omega arith;
  }
  process_all-Carries (task ∷ tasks) w =
      let r = enqueue_request (placed_at task) (decision_of d task) (others task w.placement) in
      settled-Carries task r.0 r.1 (offer_all tasks r.1) w _ (
        subst
          (λ placement.
            Carries (offer_all tasks placement) (process d placed_at others task w)
              (process_all d placed_at others tasks (process d placed_at others task w)))
          (placement-settle task r.0 _)
          (process_all-Carries tasks (process d placed_at others task w)))

  -- A pass offers the waiting tasks and the new ones to the placement engine, in order, whatever
  -- other threads do to that engine in between. Exactly the tasks that it refuses wait afterwards.
  -- Of each object the temperature is aged, and its tier is the target of the last task for it that
  -- was taken, if any. The tasks that were offered, taken and refused, and the bytes of those
  -- taken, are added to their counters, which wrap around on 64 bits.
  pub optimize_pass-offers :
      (o : MemoryOptimizer d) (placement : PlacementEngine)
      → let offer = offer_all (pass_tasks d o) placement in
        let (after, placement') = optimize_pass d placed_at others o placement in
        let n = o.metrics in
        let n' = after.metrics in
        (placement' ≡ offer.placement)
        × (after.pending_migrations ≡ offer.refused)
        × ((k : ℕ)
            → get_residency d k after
              ≡ residency_found d (
                  placed d k offer.accepted (aged_known d o.decay_rate (lookup k o.residency_map))))
        × (n'.migrations_attempted % 2 ^ 64
            ≡ (n.migrations_attempted + length offer.accepted + length offer.refused) % 2 ^ 64)
        × (n'.migrations_completed % 2 ^ 64
            ≡ (n.migrations_completed + length offer.accepted) % 2 ^ 64)
        × (n'.migrations_cancelled % 2 ^ 64
            ≡ (n.migrations_cancelled + length offer.refused) % 2 ^ 64)
        × (n'.total_bandwidth_used_bytes % 2 ^ 64
            ≡ (n.total_bandwidth_used_bytes + sizes d offer.accepted) % 2 ^ 64)
  unfolding optimize_pass get_residency
  optimize_pass-offers o placement =
      let c = process_all-Carries (pass_tasks d o) (aged_work d o placement) in
      let offer = offer_all (pass_tasks d o) placement in
      (
        c.placement,
        c.remaining,
        λ k. ap (residency_found d) (
            c.residency k
            ∙ ap (placed d k offer.accepted)
                (lookup-age_all d o.decay_rate k o.residency_map o.task_id_counter)),
        c.attempted,
        c.completed,
        c.cancelled,
        c.bandwidth,
      )
