-- ===== src/Advisor/Tests.antt =====
-- Both tiers under pressure, and a second rule.
use ume.Prelude.{ℕ, ◌*◌, ◌≡◌, refl, false, some, [], ◌∷◌, arith, ltb}
use ume.Floating.{greatest}
use ume.Floating.Samples.{thousandths}
use ume.Statistics.{StatisticsCollector, new_collector, snapshot}
use ume.Prediction.{PredictionEngine, no_metrics}
use ume.Advisor.{
  AdvisorReport, AdvisorRule, MemoryAdvisor, high, vram_advice, analyze, new_advisor, register_rule,
  generate_report,
}
use ume.Advisor.Report.{HasScores, advice, deductions, generate_report-advice}

thousandths-HasScores : HasScores thousandths
thousandths-HasScores = record {
  less_irrefl = λ a. ground arith;
  less_asymm = λ a b h. ground arith;
  hundred_zero = refl;
  plus_least = λ a n h. ground arith;
  minus_most = λ a h. ground arith;
}

abbrev stats : StatisticsCollector
stats = record new_collector {
  current_vram_bytes = 95 * 1024 * 1024;
  peak_vram_bytes = 100 * 1024 * 1024;
  current_ram_bytes = 90 * 1024 * 1024;
  peak_ram_bytes = 100 * 1024 * 1024;
}

abbrev predictor : PredictionEngine ℕ
predictor = record { prediction_cache = []; metrics = no_metrics }

abbrev second_rule : AdvisorRule thousandths
second_rule _ _ = record (vram_advice thousandths 50) { severity = high } ∷ []

abbrev advisor : MemoryAdvisor thousandths
advisor =
    register_rule thousandths (some second_rule)
      (new_advisor thousandths (analyze thousandths 20 30))

abbrev reported : AdvisorReport thousandths × MemoryAdvisor thousandths
reported = generate_report thousandths 10 60 stats predictor advisor

health : reported.0.health_score ≡ 56000
unfolding generate_report analyze snapshot
health = refl

generate_report-advice_example :
    let recs = advice thousandths stats predictor advisor.rules in
    (reported.0.recommendations ≡ recs)
    × (reported.0.health_score
        ≡ greatest thousandths 1000 (thousandths.minus 101000 (deductions thousandths recs 1000)))
    × (ltb reported.0.health_score 1000 ≡ false)
    × (ltb 101000 reported.0.health_score ≡ false)
    × (reported.1.rules ≡ advisor.rules)
generate_report-advice_example =
    generate_report-advice thousandths thousandths-HasScores 10 60 stats predictor advisor
