-- ===== src/Orchestrator/Decision.antt =====
-- What `IterationDecider.run` (app/orchestrator/iteration.py) accepts.
use native.Mathlib.Decide.{dec_lt}
use mathlib.Core.Path.{subst}
use prd2tsd.Prelude.{
  ◌≤◌, ◌<◌, ◌≡◌, refl, ◌⊎◌, inl, inr, ◌↔◌, none, some, arith, Option-cases, sym, ◌∙◌,
}
use prd2tsd.Orchestrator.Termination.{decide_at_bound}
use prd2tsd.Orchestrator.{
  OrchestratorConfig, EvaluationReport, State, final_assembly, generation, bound, decide, dimension,
  decide_report,
}

-- A report that is good enough: it passes, or it is fair and no weaker where it counts.
abbrev pub Acceptable : OrchestratorConfig → EvaluationReport → Type 0
Acceptable config r =
    (config.evaluation_pass_threshold ≤ r.overall_score)
    ⊎ (config.evaluation_replan_threshold ≤ r.overall_score)
      × (config.evaluation_replan_threshold ≤ dimension "consistency" r)
      × (config.evaluation_replan_threshold ≤ dimension "feasibility" r)

-- The iterations are used up, or there is an acceptable report.
abbrev pub Accepted : OrchestratorConfig → State → Type 0
Accepted config s =
    (bound config s ≤ s.iteration_count)
    ⊎ (r : EvaluationReport) × (s.evaluation_report ≡ some r) × Acceptable config r

report_exactly :
    (config : OrchestratorConfig) (r : EvaluationReport)
    → (decide_report config r ≡ final_assembly) ↔ Acceptable config r
unfolding decide_report
report_exactly config r = (λ h. ground arith, λ h. ground arith)

left_over :
    (config : OrchestratorConfig) (s : State) (r : EvaluationReport)
    → s.iteration_count < bound config s
    → s.evaluation_report ≡ some r
    → decide config s ≡ decide_report config r
unfolding decide
left_over config s r left given = ground arith

no_report :
    (config : OrchestratorConfig) (s : State)
    → s.iteration_count < bound config s
    → s.evaluation_report ≡ none
    → decide config s ≡ generation
unfolding decide
no_report config s left given = ground arith

decide-Accepted :
    (config : OrchestratorConfig) (s : State)
    → s.iteration_count < bound config s
    → Accepted config s
    → decide config s ≡ final_assembly
decide-Accepted config s left (inl over) = decide_at_bound config s over
decide-Accepted config s left (inr (r, given, good)) =
    left_over config s r left given ∙ (report_exactly config r).1 good

-- A run goes to its assembly exactly if its iterations are used up or it has an acceptable report.
pub accept_exactly :
    (config : OrchestratorConfig) (s : State)
    → (decide config s ≡ final_assembly) ↔ Accepted config s
accept_exactly config s = elim (dec_lt s.iteration_count (bound config s)) [
  | no ge ↦ (λ h. inl (omega (arith, ge)), λ h. decide_at_bound config s (omega (arith, ge)))
  | yes left ↦ elim (Option-cases s.evaluation_report) [
    | inl missing ↦
        (λ h. ground (arith, no_report config s left missing), decide-Accepted config s left)
    | inr (r, given) ↦ (
      λ h. inr (r, given, (report_exactly config r).0 (sym (left_over config s r left given) ∙ h)),
      decide-Accepted config s left,
    )
  ]
]

improved :
    (config : OrchestratorConfig) (s : State) (old new : EvaluationReport)
    → s.evaluation_report ≡ some old
    → old.overall_score ≤ new.overall_score
    → dimension "consistency" old ≤ dimension "consistency" new
    → dimension "feasibility" old ≤ dimension "feasibility" new
    → Accepted config s
    → Accepted config (record s { evaluation_report = some new })
improved config s old new e o c f (inl over) = inl over
improved config s old new e o c f (inr (r, given, good)) =
    let good_old : Acceptable config old = subst (Acceptable config) (ground arith) good in
    inr (new, refl, omega (arith, good_old, o, c, f))

-- A report that scores no worse overall and in the two dimensions that are read sends no accepted
-- run back.
pub accept_mono :
    (config : OrchestratorConfig) (s : State) (old new : EvaluationReport)
    → s.evaluation_report ≡ some old
    → old.overall_score ≤ new.overall_score
    → dimension "consistency" old ≤ dimension "consistency" new
    → dimension "feasibility" old ≤ dimension "feasibility" new
    → decide config s ≡ final_assembly
    → decide config (record s { evaluation_report = some new }) ≡ final_assembly
accept_mono config s old new e o c f h =
    (accept_exactly config (record s { evaluation_report = some new })).1
      (improved config s old new e o c f ((accept_exactly config s).0 h))
