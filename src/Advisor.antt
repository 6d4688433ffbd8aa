-- ===== src/Advisor.antt =====
-- `MemoryAdvisor` and `HealthAdvisorRule` of core/src/event/memory_advisor.cpp. A rule is an
-- interface: what it answers to the statistics and the predictor is a parameter. The predictor is
-- passed on to the rules.
pub mod Report
mod Tests
use Prim.Native.String.{String}
use ume.Prelude.{
  ℕ, zero, suc, ◌+◌, ◌-◌, ◌*◌, ◌/◌, ◌%◌, ◌^◌, ◌≤◌, ◌<◌, min, max, bit_and, bit_or, bit_xor, ◌≡◌,
  refl, sym, ap, ap₂, subst, ◌∙◌, ◌≢◌, ◌↔◌, ◌⊎◌, inl, inr, Bool, true, false, not, ◌&&◌, ◌||◌,
  Option, none, some, List, [], ◌∷◌, ◌++◌, map, append_assoc, append-nil, arith, dec_lt, dec_le,
  ℕ_discrete, ltb, leb, ◌==◌, if◌then◌else◌, ltb→lt, lt→ltb, le→ltb, ==_iff, ==_refl, ne→==,
  Bool-cases, Option-cases, add64, add32, sub64, length, get_or, get_elem?, set, take, drop,
  replicate, filter, all, length-append, length-filter-le, filter-append, lookup, insert, erase,
  Fresh, IsMap, total, lookup-insert, lookup-Fresh, Fresh-lookup, lookup-erase, insert-IsMap,
  Fresh-insert, Fresh-erase, erase-IsMap, total-insert_fresh, total-erase, total-insert_old,
  length-insert_fresh, put, put_same, put_other, get_elem?-append, get_elem?-last, drop-append_le,
  take_exact, drop-append, take-append,
}
use ume.Floating.{Doubles, greatest}
use ume.Statistics.{StatisticsCollector, snapshot}
use ume.Prediction.{PredictionEngine}

pub data AdvisorSeverity : Type 0 where
  info warning high critical : AdvisorSeverity

pub record Recommendation (d : Doubles) : Type 0 where
  pub category : String
  pub severity : AdvisorSeverity
  pub description : String
  pub root_cause : String
  pub suggested_action : String
  pub estimated_benefit_us : ℕ
  pub confidence_score : d.Double
  pub timestamp : ℕ

pub record AdvisorReport (d : Doubles) : Type 0 where
  pub recommendations : List (Recommendation d)
  pub health_score : d.Double
  pub timestamp : ℕ

pub record AdvisorMetrics : Type 0 where
  pub reports_generated : ℕ
  pub recommendations_accepted : ℕ
  pub total_analysis_time_ns : ℕ

module _ (d : Doubles) where
  -- `IAdvisorRule::analyze`.
  abbrev pub AdvisorRule : Type 0
  AdvisorRule = StatisticsCollector → PredictionEngine d.Double → List (Recommendation d)

  pub record MemoryAdvisor : Type 0 where
    pub rules : List AdvisorRule
    pub metrics : AdvisorMetrics

  -- A tier is under pressure: more than 1 MB in use, and more of the peak than the limit.
  abbrev pub is_pressed : d.Double → ℕ → ℕ → Bool
  is_pressed limit current peak =
      (ltb 0 peak && ltb (1024 * 1024) current)
      && d.less limit (d.divided (d.of_nat current) (d.of_nat peak))

  abbrev pub vram_advice : ℕ → Recommendation d
  vram_advice now = record {
    category = "Memory Health";
    severity = critical;
    description = "VRAM pressure exceeds critical limit.";
    root_cause = "Current active video memory demands exceed 90% of observed peaks.";
    suggested_action = "Demote cold objects to RAM or enable SSD spilling fallbacks.";
    estimated_benefit_us = 2500;
    confidence_score = d.fraction 95 100;
    timestamp = now;
  }

  abbrev pub ram_advice : ℕ → Recommendation d
  ram_advice now = record {
    category = "Memory Health";
    severity = warning;
    description = "System DRAM utilization is high.";
    root_cause = "Active host allocation demands exceed 85% of peak RAM.";
    suggested_action = "Evict cold allocations to NVMe SSD storage.";
    estimated_benefit_us = 1000;
    confidence_score = d.fraction 85 100;
    timestamp = now;
  }

  -- `HealthAdvisorRule::analyze`; `now` and `later` are what the clock reads for the two tiers.
  unfoldable pub analyze : ℕ → ℕ → AdvisorRule
  analyze now later stats predictor =
      let snap =
        snapshot d.Double (d.of_nat 0) (λ a b. d.divided (d.of_nat a) (d.of_nat b)) stats in
      (if is_pressed (d.fraction 9 10) snap.current_vram_bytes snap.peak_vram_bytes
        then vram_advice now ∷ []
        else [])
      ++ (if is_pressed (d.fraction 85 100) snap.current_ram_bytes snap.peak_ram_bytes
          then ram_advice later ∷ []
          else [])

  -- The constructor, with the default rule.
  abbrev pub new_advisor : AdvisorRule → MemoryAdvisor
  new_advisor default_health_rule = record {
    rules = default_health_rule ∷ [];
    metrics = record {
      reports_generated = 0;
      recommendations_accepted = 0;
      total_analysis_time_ns = 0;
    };
  }

  -- A null pointer is passed over.
  abbrev pub register_rule : Option AdvisorRule → MemoryAdvisor → MemoryAdvisor
  register_rule none a = a
  register_rule (some rule) a = record a { rules = a.rules ++ rule ∷ [] }

  -- The switch over the severity.
  abbrev pub deducted : AdvisorSeverity → d.Double → d.Double
  deducted critical sum = d.plus sum (d.of_nat 25)
  deducted high sum = d.plus sum (d.of_nat 15)
  deducted warning sum = d.plus sum (d.of_nat 5)
  deducted info sum = sum

  -- The two loops of `generate_report`: the recommendations and the deductions so far.
  abbrev pub collect :
      List (Recommendation d)
      → List (Recommendation d) × d.Double
      → List (Recommendation d) × d.Double
  collect [] (found, sum) = (found, sum)
  collect (rec ∷ recs) (found, sum) = collect recs (found ++ rec ∷ [], deducted rec.severity sum)

  abbrev pub collect_all :
      StatisticsCollector
      → PredictionEngine d.Double
      → List AdvisorRule
      → List (Recommendation d) × d.Double
      → List (Recommendation d) × d.Double
  collect_all stats predictor [] sofar = sofar
  collect_all stats predictor (rule ∷ rules) sofar =
      collect_all stats predictor rules (collect (rule stats predictor) sofar)

  unfoldable pub generate_report :
      ℕ
      → ℕ
      → StatisticsCollector
      → PredictionEngine d.Double
      → MemoryAdvisor
      → AdvisorReport d × MemoryAdvisor
  generate_report start end stats predictor a =
      let (recommendations, cumulative_deductions) =
        collect_all stats predictor a.rules ([], d.of_nat 0) in
      (
        record {
          recommendations = recommendations;
          health_score = greatest d (d.of_nat 0) (d.minus (d.of_nat 100) cumulative_deductions);
          timestamp = start;
        },
        record a {
          metrics = record (a.metrics) {
            reports_generated = add64 a.metrics.reports_generated 1;
            total_analysis_time_ns = add64 a.metrics.total_analysis_time_ns (sub64 end start);
          };
        },
      )
