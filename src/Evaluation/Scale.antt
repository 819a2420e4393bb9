-- ===== src/Evaluation/Scale.antt =====
-- The scale of app/evaluation/scoring.py, 0 to 10, before the thresholds of
-- app/orchestrator/iteration.py.
use prd2tsd.Prelude.{ℕ, ◌≤◌, ◌<◌, Option, none, some, ◌≡◌, ◌≢◌, refl, arith, inl, inr, ap}
use prd2tsd.Prelude.Dict.{Dict}
use prd2tsd.Orchestrator.{
  OrchestratorConfig, State, EvaluationReport, final_assembly, bound, decide,
}
use prd2tsd.Orchestrator.Decision.{accept_exactly}
use prd2tsd.Evaluation.{Reply, Evaluator, run, score_reply}
use prd2tsd.Evaluation.Bounds.{Within, Between, run-Between}

low_report :
    (collected : Dict ℕ) (reply : Option Reply) (e : Evaluator)
    → Within 0 100 collected
    → ((r : Reply) → reply ≡ some r → Within 0 100 r.dimensions)
    → Between 0 100 e.rows
    → (run collected reply e).0.overall_score ≤ 100
unfolding run score_reply
low_report collected none e hc hr rows = omega arith
low_report collected (some r) e hc hr rows =
    (run-Between 0 100 collected r e (omega arith) (omega arith) hc (hr r refl) rows (inr refl)).1

-- With thresholds above 10 points, as the default ones are (85 and 70), no report that scores its
-- dimensions by 0 to 10 points is accepted while iterations are left.
pub never_accepted_early :
    (config : OrchestratorConfig) (s : State) (collected : Dict ℕ) (reply : Option Reply)
    (e : Evaluator)
    → 100 < config.evaluation_pass_threshold
    → 100 < config.evaluation_replan_threshold
    → s.iteration_count < bound config s
    → Within 0 100 collected
    → ((r : Reply) → reply ≡ some r → Within 0 100 r.dimensions)
    → Between 0 100 e.rows
    → decide config (record s { evaluation_report = some (run collected reply e).0 })
      ≢ final_assembly
never_accepted_early config s collected reply e pass replan left hc hr rows accepted =
    let report : EvaluationReport = (run collected reply e).0 in
    let low : report.overall_score ≤ 100 = low_report collected reply e hc hr rows in
    elim ((accept_exactly config (record s { evaluation_report = some report })).0 accepted) [
      | inl over ↦ omega (arith, over, left)
      | inr (r, given, good) ↦
          let e : report ≡ r = ground (arith, given) in
          let same : report.overall_score ≡ r.overall_score = ap (λ x. x.overall_score) e in
          omega (arith, same, low, good, pass, replan)
    ]
