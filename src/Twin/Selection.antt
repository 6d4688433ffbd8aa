-- ===== src/Twin/Selection.antt =====
-- The plan that a simulation selects.
use ume.Prelude.{
  ℕ, ◌≡◌, refl, sym, ap, subst, ◌≢◌, ◌⊎◌, inl, inr, Bool, true, false, List, [], ◌∷◌, ◌++◌, map,
  arith, if◌then◌else◌, ne→==, Bool-cases,
}
use ume.Status.{ok}
use ume.Floating.{Doubles, greatest}
use ume.Twin.{
  SimulationPlan, SimulationResult, SimulationContext, TwinMetrics, evaluate_plan, evaluate_plans,
  simulate_strategies,
}

-- What the comparison of doubles does where none is a NaN, and that -1 is below what is at least 0.
pub record IsOrder (d : Doubles) : Type 0 where
  pub less_irrefl : (a : d.Double) → d.less a a ≡ false
  pub less_asymm : (a b : d.Double) → d.less a b ≡ true → d.less b a ≡ false
  pub less_cotrans :
      (a b c : d.Double) → d.less b a ≡ false → d.less c b ≡ false → d.less c a ≡ false
  pub below_zero : (x : d.Double) → d.less d.minus_one (greatest d (d.of_nat 0) x) ≡ true

module _ (d : Doubles) (o : IsOrder d) where
  -- No plan has a higher score.
  abbrev pub NoneAbove : d.Double → List (SimulationPlan d) → Type 0
  NoneAbove score [] = Unit {0}
  NoneAbove score (p ∷ ps) = (d.less score p.overall_score ≡ false) × NoneAbove score ps

  abbrev pub AllBelow : d.Double → List (SimulationPlan d) → Type 0
  AllBelow score [] = Unit {0}
  AllBelow score (p ∷ ps) = (d.less p.overall_score score ≡ true) × AllBelow score ps

  -- The first of the plans with the highest score is selected.
  pub record Selects (r : SimulationResult d) : Type 0 where
    pub before : List (SimulationPlan d)
    pub plan : SimulationPlan d
    pub after : List (SimulationPlan d)
    pub split : r.evaluated_plans ≡ before ++ plan ∷ after
    pub id : plan.plan_id ≡ r.selected_plan_id
    pub score : plan.overall_score ≡ r.selected_plan_score
    pub earlier : AllBelow r.selected_plan_score before

  -- What the loop has done with the best score that it started from.
  abbrev Loops : d.Double → ℕ → SimulationResult d → Type 0
  Loops best id r =
      NoneAbove r.selected_plan_score r.evaluated_plans
      × (d.less r.selected_plan_score best ≡ false)
      × (((r.selected_plan_score ≡ best) × (r.selected_plan_id ≡ id))
          ⊎ ((d.less best r.selected_plan_score ≡ true) × Selects r))

  abbrev with_plan : SimulationPlan d → SimulationResult d → SimulationResult d
  with_plan p r = record r { evaluated_plans = p ∷ r.evaluated_plans }

  less_le : (a b c : d.Double) → d.less a b ≡ true → d.less c b ≡ false → d.less a c ≡ true
  less_le a b c lt le = elim (Bool-cases (d.less a c)) [
    | inl less ↦ less
    | inr not_less ↦ ground (arith, o.less_cotrans b c a le not_less)
  ]

  le_less : (a b c : d.Double) → d.less b a ≡ false → d.less b c ≡ true → d.less a c ≡ true
  le_less a b c le lt = elim (Bool-cases (d.less a c)) [
    | inl less ↦ less
    | inr not_less ↦ ground (arith, o.less_cotrans c a b not_less le)
  ]

  Selects-later :
      (p : SimulationPlan d) (r : SimulationResult d)
      → d.less p.overall_score r.selected_plan_score ≡ true
      → Selects r
      → Selects (with_plan p r)
  Selects-later p r more sel = record {
    before = p ∷ sel.before;
    plan = sel.plan;
    after = sel.after;
    split = ap (◌∷◌ p) sel.split;
    id = sel.id;
    score = sel.score;
    earlier = (more, sel.earlier);
  }

  -- A plan that is better than the best so far comes first.
  Loops-better :
      (best : d.Double) (id : ℕ) (p : SimulationPlan d) (r : SimulationResult d)
      → d.less best p.overall_score ≡ true
      → Loops p.overall_score p.plan_id r
      → Loops best id (with_plan p r)
  Loops-better best id p r better (none_above, at_least, inl (same, its)) = (
    (at_least, none_above),
    o.less_cotrans best p.overall_score r.selected_plan_score
        (o.less_asymm best p.overall_score better) at_least,
    inr (
      subst (λ x. d.less best x ≡ true) (sym same) better,
      record {
        before = [];
        plan = p;
        after = r.evaluated_plans;
        split = refl;
        id = sym its;
        score = sym same;
        earlier = tt;
      },
    ),
  )
  Loops-better best id p r better (none_above, at_least, inr (more, sel)) = (
    (at_least, none_above),
    o.less_cotrans best p.overall_score r.selected_plan_score
        (o.less_asymm best p.overall_score better) at_least,
    inr (
      less_le best p.overall_score r.selected_plan_score better at_least,
      Selects-later p r more sel,
    ),
  )

  Loops-worse :
      (best : d.Double) (id : ℕ) (p : SimulationPlan d) (r : SimulationResult d)
      → d.less best p.overall_score ≡ false
      → Loops best id r
      → Loops best id (with_plan p r)
  Loops-worse best id p r worse (none_above, at_least, cases) = (
    (o.less_cotrans p.overall_score best r.selected_plan_score worse at_least, none_above),
    at_least,
    go cases,
  )
    where
      go :
          ((r.selected_plan_score ≡ best) × (r.selected_plan_id ≡ id))
            ⊎ ((d.less best r.selected_plan_score ≡ true) × Selects r)
          → ((r.selected_plan_score ≡ best) × (r.selected_plan_id ≡ id))
            ⊎ ((d.less best r.selected_plan_score ≡ true) × Selects (with_plan p r))
      go (inl same) = inl same
      go (inr (more, sel)) = inr (
        more,
        Selects-later p r (le_less p.overall_score best r.selected_plan_score worse more) sel,
      )

  evaluate_plans-Loops :
      (object_id size : ℕ) (ctx : SimulationContext) (plans : List (SimulationPlan d))
      (best : d.Double) (id : ℕ)
      → Loops best id (evaluate_plans d object_id size ctx plans best id)
  evaluate_plans-Loops object_id size ctx [] best id = (tt, o.less_irrefl best, inl (refl, refl))
  evaluate_plans-Loops object_id size ctx (candidate ∷ rest) best id =
      elim (Bool-cases (d.less best plan.overall_score)) [
        | inl better ↦
            subst (λ b. Loops best id (with_plan plan (go b))) (sym better)
              (Loops-better best id plan (go true) better
                (evaluate_plans-Loops object_id size ctx rest plan.overall_score plan.plan_id))
        | inr worse ↦
            subst (λ b. Loops best id (with_plan plan (go b))) (sym worse)
              (Loops-worse best id plan (go false) worse
                (evaluate_plans-Loops object_id size ctx rest best id))
      ]
    where
      plan : SimulationPlan d
      plan = evaluate_plan d ctx (record candidate { object_id = object_id; size_bytes = size })

      go : Bool → SimulationResult d
      go b =
          evaluate_plans d object_id size ctx rest (if b then plan.overall_score else best)
            (if b then plan.plan_id else id)

  evaluate_plans-map :
      (object_id size : ℕ) (ctx : SimulationContext) (plans : List (SimulationPlan d))
      (best : d.Double) (id : ℕ)
      → (evaluate_plans d object_id size ctx plans best id).evaluated_plans
        ≡ map
            (λ c. evaluate_plan d ctx (record c { object_id = object_id; size_bytes = size }))
            plans
  evaluate_plans-map object_id size ctx [] best id = refl
  evaluate_plans-map object_id size ctx (c ∷ rest) best id =
      ap (◌∷◌ (evaluate_plan d ctx (record c { object_id = object_id; size_bytes = size })))
        (evaluate_plans-map object_id size ctx rest _ _)

  -- A score is above -1.
  evaluated_above :
      (ctx : SimulationContext) (p : SimulationPlan d)
      → d.less d.minus_one (evaluate_plan d ctx p).overall_score ≡ true
  unfolding evaluate_plan
  evaluated_above ctx p = o.below_zero _

  -- A simulation of one candidate or more, for an object that is not null, evaluates every
  -- candidate in order and selects a plan: no candidate scores higher, and those before it score
  -- lower. Scores are not NaN.
  pub simulate_strategies-Selects :
      (started ended object_id size : ℕ) (ctx : SimulationContext) (p : SimulationPlan d)
      (ps : List (SimulationPlan d)) (metrics : TwinMetrics)
      → object_id ≢ 0
      → (r : SimulationResult d) × (((simulate_strategies d started ended object_id size ctx
              (p ∷ ps)
              metrics).0
            ≡ ok r)
          × (r.evaluated_plans
              ≡ map
                  (λ c. evaluate_plan d ctx (record c { object_id = object_id; size_bytes = size }))
                  (p ∷ ps))
          × NoneAbove r.selected_plan_score r.evaluated_plans
          × Selects r)
  unfolding simulate_strategies
  simulate_strategies-Selects started ended object_id size ctx p ps metrics ne =
      let r = evaluate_plans d object_id size ctx (p ∷ ps) d.minus_one 0 in
      let (none_above, _, cases) = evaluate_plans-Loops object_id size ctx (p ∷ ps) d.minus_one 0 in
      (
        r,
        (
          simp (ne→== object_id 0 ne) refl,
          evaluate_plans-map object_id size ctx (p ∷ ps) d.minus_one 0,
          none_above,
          selected r none_above.0 cases,
        ),
      )
    where
      first : SimulationPlan d
      first = evaluate_plan d ctx (record p { object_id = object_id; size_bytes = size })

      selected :
          (r : SimulationResult d)
          → d.less r.selected_plan_score first.overall_score ≡ false
          → ((r.selected_plan_score ≡ d.minus_one) × (r.selected_plan_id ≡ 0))
            ⊎ ((d.less d.minus_one r.selected_plan_score ≡ true) × Selects r)
          → Selects r
      selected r low (inl (same, _)) =
          let no_higher : d.less d.minus_one first.overall_score ≡ false =
            subst (λ x. d.less x first.overall_score ≡ false) same low in
          ground
            (arith, evaluated_above ctx (record p { object_id = object_id; size_bytes = size }))
      selected r low (inr (_, sel)) = sel
