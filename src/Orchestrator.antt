-- ===== src/Orchestrator.antt =====
-- app/orchestrator: the control fields of the graph state (state.py), the decision after an
-- evaluation (iteration.py) and the routing functions (routing.py, nodes/intent_classify.py).
-- A score is a number of tenths of a point. The texts that the layers write into the state decide no
-- route, and are left out.
pub mod Graph
pub mod Termination
pub mod Review
pub mod Decision
mod Tests
use prd2tsd.Prelude.{
  ℕ, ◌+◌, String, Option, none, some, Bool, true, false, ◌||◌, List, [], ◌∷◌, leb, ltb, ◌=?◌,
  if◌then◌else◌,
}
use prd2tsd.Prelude.Dict.{Dict, lookup}

-- `OrchestratorConfig`
pub record OrchestratorConfig : Type 0 where
  pub max_iterations : ℕ
  pub evaluation_pass_threshold : ℕ
  pub evaluation_replan_threshold : ℕ

abbrev pub default_config : OrchestratorConfig
default_config = record {
  max_iterations = 3;
  evaluation_pass_threshold = 850;
  evaluation_replan_threshold = 700;
}

-- `EvaluationReportDetail`, as far as the decision reads it.
pub record EvaluationReport : Type 0 where
  pub overall_score : ℕ
  pub dimension_scores : Dict ℕ
  pub critical_issues : List String

-- The status of the graph state.
pub data Status : Type 0 where
  running paused complete failed clarification_needed : Status

-- `OrchestratorState`; `auto_approve` is that setting of the tenant, and `progress` is in percent.
pub record State : Type 0 where
  pub user_role : String
  pub auto_approve : Bool
  pub intent : Option String
  pub evaluation_report : Option EvaluationReport
  pub iteration_count : ℕ
  pub max_iterations : Option ℕ
  pub status : Status
  pub error_message : String
  pub progress : ℕ

-- `max_iterations if max_iterations is not None else default`
abbrev pub limit_or : Option ℕ → ℕ → ℕ
limit_or none d = d
limit_or (some n) d = n

-- `make_initial_state`; it starts with an empty report.
unfoldable pub make_initial_state : String → Bool → Option ℕ → State
make_initial_state user_role auto_approve max_iterations = record {
  user_role = user_role;
  auto_approve = auto_approve;
  intent = none;
  evaluation_report =
      some (record { overall_score = 0; dimension_scores = []; critical_issues = [] });
  iteration_count = 0;
  max_iterations = some (limit_or max_iterations default_config.max_iterations);
  status = running;
  error_message = "";
  progress = 0;
}

-- The targets in `ROUTE_MAP`.
pub data Route : Type 0 where
  final_assembly planning generation analysis_human_review : Route

abbrev pub score_or : Option ℕ → ℕ → ℕ
score_or none d = d
score_or (some n) d = n

-- `dimension_scores.get(name, 100)`
pub dimension : String → EvaluationReport → ℕ
dimension name report = score_or (lookup name report.dimension_scores) 1000

abbrev pub is_empty {ℓ} : {A : Type ℓ} → List A → Bool
is_empty [] = true
is_empty (x ∷ xs) = false

-- `IterationDecider.run` from the point where there is a report.
decide_report : OrchestratorConfig → EvaluationReport → Route
decide_report config report =
    if leb config.evaluation_pass_threshold report.overall_score
    then final_assembly
    else if leb config.evaluation_replan_threshold report.overall_score
    then (if ltb (dimension "consistency" report) config.evaluation_replan_threshold
        then generation
        else if ltb (dimension "feasibility" report) config.evaluation_replan_threshold
        then planning
        else final_assembly)
    else if is_empty report.critical_issues
    then planning
    else analysis_human_review

decide_some : OrchestratorConfig → Option EvaluationReport → Route
decide_some config none = generation
decide_some config (some report) = decide_report config report

-- The bound that `run` compares the iteration count with.
abbrev pub bound : OrchestratorConfig → State → ℕ
bound config s = limit_or s.max_iterations config.max_iterations

-- `IterationDecider.run`
unfoldable pub decide : OrchestratorConfig → State → Route
unfolding decide_report decide_some
decide config s =
    if leb (bound config s) s.iteration_count
    then final_assembly
    else decide_some config s.evaluation_report

-- `needs_review`; true for "review_needed".
unfoldable pub needs_review : State → Bool
needs_review s = if s.auto_approve || s.user_role =? "admin" then false else true

-- The keys of the conditional edges after `classify`.
pub data IntentRoute : Type 0 where
  chat_node retrieve_node kg_retrieve clarify_node : IntentRoute

-- `INTENT_ROUTE_MAP.get(intent, "chat_node")`
route_name : String → IntentRoute
route_name intent =
    if intent =? "chat"
    then chat_node
    else if intent =? "knowledge_qa"
    then retrieve_node
    else if intent =? "complex_generation"
    then kg_retrieve
    else if intent =? "clarification"
    then clarify_node
    else chat_node

-- `state.get("intent", "chat")`
abbrev intent_or : Option String → String → String
intent_or none d = d
intent_or (some i) d = i

-- `route_by_intent`
unfoldable pub route_by_intent : State → IntentRoute
unfolding route_name
route_by_intent s = route_name (intent_or s.intent "chat")
