-- ===== src/Orchestrator/Tests.antt =====
-- Runs of the graph on concrete answers.
use prd2tsd.Prelude.{ℕ, ◌≤◌, ◌≡◌, refl, none, some, false, arith, max, [], ◌∷◌}
use prd2tsd.Prelude.Dict.{lookup}
use prd2tsd.Orchestrator.{
  EvaluationReport, State, make_initial_state, default_config, bound, decide, decide_report,
  decide_some, route_name, needs_review, dimension, final_assembly, analysis_human_review,
  route_by_intent, chat_node,
}
use prd2tsd.Orchestrator.Graph.{
  end, Answer, Feedback, run_node, next_node, by_route, by_intent, classified, reviewed, step, run,
  start,
}
use prd2tsd.Orchestrator.Termination.{Closed, run_completes}
use prd2tsd.Orchestrator.Review.{unreviewed, reviews_never_steer}

abbrev engineer : State
engineer = make_initial_state "engineer" false none

abbrev weak : EvaluationReport
weak = record {
  overall_score = 610;
  dimension_scores = ("consistency", 500) ∷ [];
  critical_issues = "no rollback" ∷ [];
}

abbrev fair : EvaluationReport
fair = record {
  overall_score = 750;
  dimension_scores = ("consistency", 720) ∷ ("feasibility", 800) ∷ [];
  critical_issues = [];
}

abbrev better : EvaluationReport
better = record {
  overall_score = 760;
  dimension_scores = ("consistency", 720) ∷ ("feasibility", 810) ∷ [];
  critical_issues = [];
}

abbrev changes : Feedback
changes = record { decision = "needs_changes"; comment = "split the queue" }

abbrev approval : Feedback
approval = record { decision = "approve"; comment = "" }

abbrev strict : ℕ → Answer
strict k = record { intent = "complex_generation"; report = some weak; feedback = some changes }

abbrev kind : ℕ → Answer
kind k = record { intent = "complex_generation"; report = some weak; feedback = some approval }

-- A weak report goes back to the planning, or to a review of the analysis, until the bound.
weak_to_review :
    decide default_config (record engineer { evaluation_report = some weak })
    ≡ analysis_human_review
unfolding decide decide_report decide_some make_initial_state dimension lookup
weak_to_review = refl

chat_by_default : route_by_intent (record engineer { intent = some "poetry" }) ≡ chat_node
unfolding route_by_intent route_name
chat_by_default = refl

three_evaluations : (run default_config strict 23 (start engineer)).state.iteration_count ≡ 3
unfolding run step run_node next_node by_route by_intent classified reviewed needs_review decide
    decide_report decide_some route_by_intent route_name make_initial_state
three_evaluations = refl

run_completes_example :
    ((run default_config strict 23 (start engineer)).node ≡ end)
    × ((run default_config strict 23 (start engineer)).state.iteration_count
        ≤ max 1 (bound default_config engineer))
    × Closed (run default_config strict 23 (start engineer)).state
unfolding make_initial_state
run_completes_example = run_completes default_config strict 23 engineer refl (omega arith)

reviews_never_steer_example :
    ((run default_config strict 9 (start engineer)).node
      ≡ (run default_config kind 9 (start engineer)).node)
    × (unreviewed (run default_config strict 9 (start engineer)).state
        ≡ unreviewed (run default_config kind 9 (start engineer)).state)
reviews_never_steer_example =
    reviews_never_steer default_config strict kind (λ k. refl) 9 (start engineer)

fair_accepted :
    decide default_config (record engineer { evaluation_report = some fair }) ≡ final_assembly
unfolding decide decide_report decide_some make_initial_state dimension lookup
fair_accepted = refl
