-- ===== src/Advisor/Report.antt =====
-- What a report holds.
use ume.Prelude.{
  ℕ, ◌≡◌, refl, sym, ap, ap₂, ◌∙◌, inl, inr, true, false, List, [], ◌∷◌, ◌++◌, append_assoc,
  append-nil, Bool-cases,
}
use ume.Floating.{Doubles, greatest}
use ume.Statistics.{StatisticsCollector}
use ume.Prediction.{PredictionEngine}
use ume.Advisor.{
  AdvisorSeverity, info, warning, high, critical, Recommendation, AdvisorRule, MemoryAdvisor,
  deducted, collect, collect_all, generate_report,
}

-- What the comparison and the arithmetic of doubles do, rounding included.
pub record HasScores (d : Doubles) : Type 0 where
  pub less_irrefl : (a : d.Double) → d.less a a ≡ false
  pub less_asymm : (a b : d.Double) → d.less a b ≡ true → d.less b a ≡ false
  pub hundred_zero : d.less (d.of_nat 100) (d.of_nat 0) ≡ false
  pub plus_least :
      (a : d.Double) (n : ℕ)
      → d.less a (d.of_nat 0) ≡ false
      → d.less (d.plus a (d.of_nat n)) (d.of_nat 0) ≡ false
  pub minus_most :
      (a : d.Double)
      → d.less a (d.of_nat 0) ≡ false
      → d.less (d.of_nat 100) (d.minus (d.of_nat 100) a) ≡ false

module _ (d : Doubles) where
  -- What all rules recommend, one rule after the other.
  abbrev pub advice :
      StatisticsCollector
      → PredictionEngine d.Double
      → List (AdvisorRule d)
      → List (Recommendation d)
  advice stats predictor [] = []
  advice stats predictor (rule ∷ rules) = rule stats predictor ++ advice stats predictor rules

  -- The deductions of recommendations, added up from the first on.
  abbrev pub deductions : List (Recommendation d) → d.Double → d.Double
  deductions [] sum = sum
  deductions (rec ∷ recs) sum = deductions recs (deducted d rec.severity sum)

  deductions-append :
      (xs ys : List (Recommendation d)) (sum : d.Double)
      → deductions (xs ++ ys) sum ≡ deductions ys (deductions xs sum)
  deductions-append [] ys sum = refl
  deductions-append (x ∷ xs) ys sum = deductions-append xs ys (deducted d x.severity sum)

  collect_lem :
      (recs found : List (Recommendation d)) (sum : d.Double)
      → collect d recs (found, sum) ≡ (found ++ recs, deductions recs sum)
  collect_lem [] found sum = ap (λ xs. (xs, sum)) (sym (append-nil found))
  collect_lem (rec ∷ recs) found sum =
      collect_lem recs (found ++ rec ∷ []) (deducted d rec.severity sum)
      ∙ ap (λ xs. (xs, deductions (rec ∷ recs) sum)) (append_assoc found (rec ∷ []) recs)

  collect_all_lem :
      (stats : StatisticsCollector) (predictor : PredictionEngine d.Double)
      (rules : List (AdvisorRule d)) (found : List (Recommendation d)) (sum : d.Double)
      → let recs = advice stats predictor rules in
        collect_all d stats predictor rules (found, sum) ≡ (found ++ recs, deductions recs sum)
  collect_all_lem stats predictor [] found sum = ap (λ xs. (xs, sum)) (sym (append-nil found))
  collect_all_lem stats predictor (rule ∷ rules) found sum =
      let recs = rule stats predictor in
      ap (collect_all d stats predictor rules) (collect_lem recs found sum)
      ∙ collect_all_lem stats predictor rules (found ++ recs) (deductions recs sum)
      ∙ ap₂ (λ (xs : List (Recommendation d)) (s : d.Double). (xs, s))
          (append_assoc found recs (advice stats predictor rules))
          (sym (deductions-append recs (advice stats predictor rules) sum))

  module _ (laws : HasScores d) where
    deductions_least :
        (recs : List (Recommendation d)) (sum : d.Double)
        → d.less sum (d.of_nat 0) ≡ false
        → d.less (deductions recs sum) (d.of_nat 0) ≡ false
    deductions_least [] sum h = h
    deductions_least (rec ∷ recs) sum h =
        deductions_least recs (deducted d rec.severity sum) (one rec.severity)
      where
        one : (s : AdvisorSeverity) → d.less (deducted d s sum) (d.of_nat 0) ≡ false
        one info = h
        one warning = laws.plus_least sum 5 h
        one high = laws.plus_least sum 15 h
        one critical = laws.plus_least sum 25 h

    score_within :
        (sum : d.Double)
        → d.less sum (d.of_nat 0) ≡ false
        → let score = greatest d (d.of_nat 0) (d.minus (d.of_nat 100) sum) in
          (d.less score (d.of_nat 0) ≡ false) × (d.less (d.of_nat 100) score ≡ false)
    score_within sum h = elim (Bool-cases (d.less (d.of_nat 0) (d.minus (d.of_nat 100) sum))) [
      | inl above ↦ rw above (laws.less_asymm _ _ above, laws.minus_most sum h)
      | inr below ↦ rw below (laws.less_irrefl _, laws.hundred_zero)
    ]

    -- A report holds what every rule recommends, in the order in which the rules were registered;
    -- its health score is 100 less the deductions of all of them, added up in that order, and 0 if
    -- that is below 0. Where the comparison and the arithmetic of doubles have the laws above, it
    -- is at least 0 and at most 100. The rules stay as they are.
    pub generate_report-advice :
        (start end : ℕ) (stats : StatisticsCollector) (predictor : PredictionEngine d.Double)
        (a : MemoryAdvisor d)
        → let (report, after) = generate_report d start end stats predictor a in
          let recs = advice stats predictor a.rules in
          (report.recommendations ≡ recs)
          × (report.health_score
              ≡ greatest d (d.of_nat 0) (d.minus (d.of_nat 100) (deductions recs (d.of_nat 0))))
          × (d.less report.health_score (d.of_nat 0) ≡ false)
          × (d.less (d.of_nat 100) report.health_score ≡ false)
          × (after.rules ≡ a.rules)
    unfolding generate_report
    generate_report-advice start end stats predictor a =
        let recs = advice stats predictor a.rules in
        let sum = deductions recs (d.of_nat 0) in
        let e = collect_all_lem stats predictor a.rules [] (d.of_nat 0) in
        let (least, most) =
          score_within sum (deductions_least recs (d.of_nat 0) (laws.less_irrefl (d.of_nat 0))) in
        rw e (refl, refl, least, most, refl)
