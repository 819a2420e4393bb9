-- ===== src/Evaluation/Tests.antt =====
-- Scores of one evaluation.
use mathlib.Core.Path.{subst}
use prd2tsd.Prelude.{inl, ℕ, ◌≤◌, String, none, some, true, [], ◌∷◌, ◌≡◌, ◌≢◌, refl, arith}
use prd2tsd.Prelude.Dict.{Dict, lookup}
use prd2tsd.Orchestrator.{State, make_initial_state, default_config, decide, final_assembly}
use prd2tsd.Evaluation.{
  Reply, Evaluator, run, round_div, calibrated_overall, total, weighted_overall, weighted_sum,
  merge, merged_score, required_dims,
}
use prd2tsd.Evaluation.Bounds.{Within, Between, run-Between}
use prd2tsd.Evaluation.Scale.{never_accepted_early}

abbrev scores : Dict ℕ
scores =
    ("prd_coverage", 800)
    ∷ ("consistency", 750)
    ∷ ("feasibility", 900)
    ∷ ("architecture_quality", 700)
    ∷ ("security", 650)
    ∷ ("cost", 800)
    ∷ ("implementability", 850)
    ∷ ("tech_advancement", 600)
    ∷ ("legal_compliance", 500)
    ∷ []

abbrev reply : Reply
reply = record { dimensions = scores; issues = "no audit log" ∷ []; is_valid = true }

abbrev remembered : Evaluator
remembered = record {
  history = [];
  rows = record { overall = 66; dimensions = [] } ∷ [];
  up = true;
}

-- 7.475 points are 7.5, and with a history of 6.6 the mean, 7.05, is 7.0.
half_to_even : round_div 25 10 ≡ 2
unfolding round_div
half_to_even = refl

weighted : weighted_overall (merge [] scores required_dims) ≡ 75
unfolding weighted_overall weighted_sum merge merged_score lookup round_div
weighted = refl

calibrated : calibrated_overall 75 (record { overall = 66; dimensions = [] } ∷ []) ≡ 70
unfolding calibrated_overall total round_div
calibrated = refl

scores-Within : Within 0 100 scores
unfolding lookup
scores-Within k score found = (omega arith, ground (arith, found))

reply-Within : (r : Reply) → some reply ≡ some r → Within 0 100 r.dimensions
reply-Within r e =
    let same : reply ≡ r = ground (arith, e) in
    subst (λ x. Within 0 100 x.dimensions) same scores-Within

remembered-Between : Between 0 100 remembered.rows
remembered-Between = ((omega arith, omega arith), tt)

abbrev engineer : State
engineer = make_initial_state "engineer" true none

never_accepted_early_example :
    decide default_config
      (record engineer { evaluation_report = some (run scores (some reply) remembered).0 })
    ≢ final_assembly
unfolding make_initial_state
never_accepted_early_example =
    never_accepted_early default_config engineer scores (some reply) remembered (omega arith)
      (omega arith) (omega arith) scores-Within reply-Within remembered-Between

run-Between_example :
    let (report, e') = run scores (some reply) remembered in
    (0 ≤ report.overall_score)
    × (report.overall_score ≤ 100)
    × ((k : String) (score : ℕ)
        → lookup k report.dimension_scores ≡ some score
        → (0 ≤ score) × (score ≤ 100))
    × Between 0 100 e'.rows
run-Between_example =
    run-Between 0 100 scores reply remembered (omega arith) (omega arith) scores-Within
      scores-Within remembered-Between (inl refl)
