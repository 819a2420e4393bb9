-- ===== src/Evaluation.antt =====
-- app/evaluation: the scores of a run (scoring.py), their calibration (score_calibrator.py,
-- score_history.py) and the fan-out to the evaluators (agent_graph.py). A score of one dimension is
-- in hundredths of a point, an overall score and a score of the report in tenths, as they are
-- rounded; the binary error of the floats is left out. What the language models answer is an input.
pub mod Rounding
pub mod Bounds
pub mod Scale
pub mod FanOut
mod Tests
use prd2tsd.Prelude.{
  ℕ, zero, suc, ◌+◌, ◌*◌, ◌/◌, ◌%◌, String, Option, none, some, Bool, true, false, List, [], ◌∷◌,
  ◌++◌, map, length, take, ltb, if◌then◌else◌,
}
use prd2tsd.Prelude.Dict.{Dict, lookup, insert, contains}
use prd2tsd.Orchestrator.{EvaluationReport}

-- `round`, of a quotient: to the nearest, and to the even one in between.
unfoldable pub round_div : ℕ → ℕ → ℕ
round_div a b =
    let q = a / b in
    let r = a % b in if ltb (2 * r) b then q else if ltb b (2 * r) then q + 1 else q + q % 2

-- `DIM_WEIGHTS`, in hundredths.
abbrev pub dim_weights : Dict ℕ
dim_weights =
    ("prd_coverage", 20)
    ∷ ("consistency", 20)
    ∷ ("feasibility", 15)
    ∷ ("security", 15)
    ∷ ("architecture_quality", 10)
    ∷ ("cost", 5)
    ∷ ("implementability", 5)
    ∷ ("tech_advancement", 5)
    ∷ ("legal_compliance", 5)
    ∷ []

-- `required_dims`
abbrev pub required_dims : List String
required_dims =
    "prd_coverage" ∷ "consistency" ∷ "feasibility" ∷ "architecture_quality" ∷ "security" ∷ "cost"
    ∷ "implementability" ∷ "tech_advancement" ∷ "legal_compliance" ∷ "completeness" ∷ []

-- A recorded score.
pub record Score : Type 0 where
  pub overall : ℕ
  pub dimensions : Dict ℕ

-- `ScoreCalibrator`, and the rows behind score_history.py, the newest first.
pub record Evaluator : Type 0 where
  pub history : List Score
  pub rows : List Score
  pub up : Bool

-- The part of the model's answer that is read, and whether the report takes its conclusion, issues
-- and recommendations: it is none if there is no JSON in it, or an exception before the save.
pub record Reply : Type 0 where
  pub dimensions : Dict ℕ
  pub issues : List String
  pub is_valid : Bool

-- `load_recent_scores`
unfoldable pub load_recent_scores : Evaluator → List Score
load_recent_scores e = if e.up then take 10 e.rows else []

-- `save_evaluation_score`
unfoldable pub save_evaluation_score : Score → Evaluator → Evaluator
save_evaluation_score score e = if e.up then record e { rows = score ∷ e.rows } else e

-- `set_history`
unfoldable pub set_history : List Score → Evaluator → Evaluator
set_history history e = record e { history = history }

-- `merged[dim]`
unfoldable pub merged_score : Option ℕ → Option ℕ → ℕ
merged_score (some score) reply = score
merged_score none (some score) = score
merged_score none none = 500

unfoldable pub merge : Dict ℕ → Dict ℕ → List String → Dict ℕ
merge collected replied [] = []
merge collected replied (dim ∷ dims) =
    (dim, merged_score (lookup dim collected) (lookup dim replied)) ∷ merge collected replied dims

abbrev pub or_default : Option ℕ → ℕ
or_default none = 500
or_default (some score) = score

-- The weighted sum, in ten-thousandths of a point.
unfoldable pub weighted_sum : Dict ℕ → Dict ℕ → ℕ
weighted_sum merged [] = 0
weighted_sum merged ((dim, weight) ∷ weights) =
    or_default (lookup dim merged) * weight + weighted_sum merged weights

unfoldable pub weighted_overall : Dict ℕ → ℕ
weighted_overall merged = round_div (weighted_sum merged dim_weights) 1000

unfoldable pub total : List Score → ℕ
total [] = 0
total (s ∷ history) = s.overall + total history

-- The mean of the score and the mean of the history.
unfoldable pub calibrated_overall : ℕ → List Score → ℕ
calibrated_overall overall [] = overall
calibrated_overall overall (s ∷ history) =
    round_div (length (s ∷ history) * overall + total (s ∷ history)) (2 * length (s ∷ history))

unfoldable pub rounded : Dict ℕ → Dict ℕ
rounded [] = []
rounded ((dim, score) ∷ d) = (dim, round_div score 10) ∷ rounded d

-- `calibrate`: the calibrated score, and the calibrator with the score appended.
unfoldable pub calibrate : ℕ → Dict ℕ → Evaluator → Score × Evaluator
calibrate overall dimensions e = (
  record { overall = calibrated_overall overall e.history; dimensions = rounded dimensions },
  record e { history = e.history ++ record { overall = overall; dimensions = dimensions } ∷ [] },
)

-- `EvaluationReportDetail()`
abbrev pub empty_report : EvaluationReport
empty_report = record { overall_score = 0; dimension_scores = []; critical_issues = [] }

-- The report that is built after the save, or the empty one if that raises.
report_if : Bool → EvaluationReport → EvaluationReport
report_if true report = report
report_if false report = empty_report

score_reply : Dict ℕ → Option Reply → Evaluator → EvaluationReport × Evaluator
unfolding report_if
score_reply collected none e = (empty_report, e)
score_reply collected (some reply) e =
    let merged = merge collected reply.dimensions required_dims in
    let (calibrated, e') = calibrate (weighted_overall merged) merged e in
    (
      report_if reply.is_valid (record {
        overall_score = calibrated.overall;
        dimension_scores = calibrated.dimensions;
        critical_issues = reply.issues;
      }),
      save_evaluation_score (record { overall = calibrated.overall; dimensions = merged }) e',
    )

-- `ScoringNode.run`
unfoldable pub run : Dict ℕ → Option Reply → Evaluator → EvaluationReport × Evaluator
unfolding score_reply
run collected reply e = score_reply collected reply (set_history (load_recent_scores e) e)

-- `merge_scores`
unfoldable pub merge_scores : Dict ℕ → Dict ℕ → Dict ℕ
merge_scores a [] = a
merge_scores a ((dim, score) ∷ b) = merge_scores (insert dim score a) b

-- `_EVALUATOR_DIMS`
abbrev pub evaluator_dims : Dict String
evaluator_dims =
    ("coverage", "prd_coverage")
    ∷ ("consistency", "consistency")
    ∷ ("feasibility", "feasibility")
    ∷ ("arch_quality", "architecture_quality")
    ∷ ("security", "security")
    ∷ ("cost_eval", "cost")
    ∷ ("implementability", "implementability")
    ∷ ("tech_advancement", "tech_advancement")
    ∷ ("legal", "legal_compliance")
    ∷ []

missing : Dict ℕ → Dict String → List String
missing existing [] = []
missing existing ((node, dim) ∷ nodes) =
    let rest = missing existing nodes in if contains dim existing then rest else node ∷ rest

or_scoring : List String → List String
or_scoring [] = "scoring" ∷ []
or_scoring (node ∷ nodes) = node ∷ nodes

-- `fan_out_evaluators`, by the names of the nodes that are sent to.
unfoldable pub fan_out_evaluators : Dict ℕ → List String
unfolding missing or_scoring
fan_out_evaluators existing = or_scoring (missing existing evaluator_dims)
