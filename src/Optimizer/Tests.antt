-- ===== src/Optimizer/Tests.antt =====
-- A cold object in the video memory, a hot one in the main memory, and a task that waits for an
-- object that the placement engine has already; before the second task another thread takes that
-- one out.
use ume.Prelude.{ℕ, ◌+◌, ◌%◌, ◌^◌, ◌≡◌, refl, [], ◌∷◌, ◌==◌, if◌then◌else◌, length, lookup}
use ume.Floating.Samples.{thousandths}
use ume.Types.Tier
use ume.Placement.{PlacementEngine, new_engine, enqueue_request, dequeue_request}
use ume.Optimizer.{
  ResidencyInfo, MigrationTask, MemoryOptimizer, new_optimizer, get_residency, residency_found,
}
use ume.Optimizer.Pass.{decision_of, optimize_pass}
use ume.Optimizer.Tiers.{placed, sizes, aged_known, pass_tasks}
use ume.Optimizer.Refine.{Offer, offer_all, optimize_pass-offers}

abbrev residency : ℕ → ℕ → ℕ → ResidencyInfo thousandths
residency object_id tier temperature = record {
  object_id = object_id;
  current_tier = tier;
  last_access_time = 10;
  access_count = 1;
  temperature = temperature;
  size_bytes = 4096;
}

abbrev waiting : MigrationTask thousandths
waiting = record {
  task_id = 1;
  object_id = 9;
  source_tier = Tier.ram;
  target_tier = Tier.vram;
  size_bytes = 512;
  cost_estimate_us = 11000;
  priority = 150;
}

abbrev optimizer : MemoryOptimizer thousandths
optimizer = record (new_optimizer thousandths 1000) {
  residency_map =
      (7, residency 7 Tier.vram 11000)
      ∷ (8, residency 8 Tier.ram 101000)
      ∷ (9, residency 9 Tier.ram 51000)
      ∷ [];
  pending_migrations = waiting ∷ [];
  task_id_counter = 1;
}

abbrev placement : PlacementEngine
placement = (enqueue_request 5 (decision_of thousandths waiting) (new_engine 10000 10000 10000)).1

abbrev placed_at : MigrationTask thousandths → ℕ
placed_at task = 100 + task.task_id

abbrev others : MigrationTask thousandths → PlacementEngine → PlacementEngine
others task e = if task.task_id == 2 then (dequeue_request e).1 else e

abbrev after : MemoryOptimizer thousandths × PlacementEngine
after = optimize_pass thousandths placed_at others optimizer placement

abbrev offer : Offer thousandths placed_at others
offer = offer_all thousandths placed_at others (pass_tasks thousandths optimizer) placement

one_waits : after.0.pending_migrations ≡ waiting ∷ []
unfolding optimize_pass enqueue_request dequeue_request
one_waits = refl

optimize_pass-offers_example :
    (after.1 ≡ offer.placement)
    × (after.0.pending_migrations ≡ offer.refused)
    × ((k : ℕ)
        → get_residency thousandths k after.0
          ≡ residency_found thousandths (
              placed thousandths k offer.accepted
                (aged_known thousandths optimizer.decay_rate (lookup k optimizer.residency_map))))
    × (after.0.metrics.migrations_attempted % 2 ^ 64
        ≡ (optimizer.metrics.migrations_attempted + length offer.accepted + length offer.refused)
          % 2 ^ 64)
    × (after.0.metrics.migrations_completed % 2 ^ 64
        ≡ (optimizer.metrics.migrations_completed + length offer.accepted) % 2 ^ 64)
    × (after.0.metrics.migrations_cancelled % 2 ^ 64
        ≡ (optimizer.metrics.migrations_cancelled + length offer.refused) % 2 ^ 64)
    × (after.0.metrics.total_bandwidth_used_bytes % 2 ^ 64
        ≡ (optimizer.metrics.total_bandwidth_used_bytes + sizes thousandths offer.accepted)
          % 2 ^ 64)
optimize_pass-offers_example = optimize_pass-offers thousandths placed_at others optimizer placement
