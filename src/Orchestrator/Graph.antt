-- ===== src/Orchestrator/Graph.antt =====
-- app/orchestrator/main_graph.py, `build_orchestrator_graph`, as a machine: what each node writes to
-- the control fields, and the edge that leaves it. What the layers, the classifier and the reviewers
-- answer is an input of the step.
use Prim.Native.String.{◌++◌ as text_append}
use prd2tsd.Prelude.{ℕ, zero, suc, ◌+◌, String, Option, none, some, ◌=?◌, if◌then◌else◌}
use prd2tsd.Orchestrator.{
  OrchestratorConfig, EvaluationReport, running, paused, complete, clarification_needed, State,
  Route, final_assembly, planning, generation, analysis_human_review, IntentRoute, chat_node,
  retrieve_node, kg_retrieve, clarify_node, decide, needs_review, route_by_intent,
}

-- The nodes of the graph, and END.
pub data Node : Type 0 where
  inject_runtime classify chat retrieve clarify : Node
  retrieve_memory knowledge_retrieval analysis analysis_review : Node
  plan plan_review generate evaluate assemble : Node
  compress_memory save_session end : Node

-- What `interrupt` hands back to a review node, where a decision that is missing is "approved".
pub record Feedback : Type 0 where
  pub decision : String
  pub comment : String

-- What the world answers while one node runs: the class of the input, the evaluation layer's report,
-- and the reviewer's feedback, `none` if it is no dictionary or empty.
pub record Answer : Type 0 where
  pub intent : String
  pub report : Option EvaluationReport
  pub feedback : Option Feedback

-- `IntentClassifyNode.run`: an intent that is there is kept.
unfoldable pub classified : Option String → String → Option String
classified none found = some found
classified (some intent) found = if intent =? "" then some found else some intent

-- The message of a review that asks for changes.
abbrev pub rejection : String → String → String
rejection stage comment = text_append "人工审核未通过 (" (text_append stage (text_append "): " comment))

-- `HumanReviewNode.run`, after the interrupt.
unfoldable pub reviewed : String → Option Feedback → State → State
reviewed stage none s = s
reviewed stage (some f) s =
    if f.decision =? "needs_changes"
    then record s { status = paused; error_message = rejection stage f.comment }
    else record s { status = running }

-- `EvaluationAdapter.run`
evaluated : Option EvaluationReport → State → State
evaluated report s = record s {
  evaluation_report = report;
  iteration_count = s.iteration_count + 1;
  progress = 90;
}

-- `FinalAssemblyNode.run`
assembled : State → State
assembled s = record s { status = complete; progress = 100 }

-- `ChatNode.run` and `KnowledgeQANode.run`
answered : State → State
answered s = record s { status = complete; progress = 100 }

-- `ClarifyNode.run`
clarified : State → State
clarified s = record s { status = clarification_needed; progress = 100 }

-- What a node writes.
unfoldable pub run_node : Node → Answer → State → State
unfolding classified reviewed evaluated assembled answered clarified
run_node classify a s = record s { intent = classified s.intent a.intent }
run_node chat a s = answered s
run_node retrieve a s = answered s
run_node clarify a s = clarified s
run_node knowledge_retrieval a s = record s { progress = 10 }
run_node analysis a s = record s { progress = 25 }
run_node analysis_review a s = reviewed "analysis" a.feedback s
run_node plan a s = record s { progress = 50 }
run_node plan_review a s = reviewed "planning" a.feedback s
run_node generate a s = record s { progress = 75 }
run_node evaluate a s = evaluated a.report s
run_node assemble a s = assembled s
run_node _ a s = s

-- The conditional edges after `classify`.
unfoldable pub by_intent : IntentRoute → Node
by_intent chat_node = chat
by_intent retrieve_node = retrieve
by_intent kg_retrieve = retrieve_memory
by_intent clarify_node = clarify

-- The conditional edges after `evaluation`.
unfoldable pub by_route : Route → Node
by_route final_assembly = assemble
by_route planning = plan
by_route generation = generate
by_route analysis_human_review = analysis_review

-- The edge that leaves a node, in the state that the node has written.
unfoldable pub next_node : OrchestratorConfig → Node → State → Node
unfolding by_intent by_route
next_node config inject_runtime s = classify
next_node config classify s = by_intent (route_by_intent s)
next_node config chat s = save_session
next_node config retrieve s = save_session
next_node config clarify s = end
next_node config retrieve_memory s = knowledge_retrieval
next_node config knowledge_retrieval s = analysis
next_node config analysis s = if needs_review s then analysis_review else plan
next_node config analysis_review s = plan
next_node config plan s = if needs_review s then plan_review else generate
next_node config plan_review s = generate
next_node config generate s = evaluate
next_node config evaluate s = by_route (decide config s)
next_node config assemble s = compress_memory
next_node config compress_memory s = save_session
next_node config save_session s = end
next_node config end s = end

-- A position of a run: the node that runs next, and the state.
pub record Position : Type 0 where
  pub node : Node
  pub state : State

unfoldable pub step : OrchestratorConfig → Answer → Position → Position
step config a p =
    let s = run_node p.node a p.state in record { node = next_node config p.node s; state = s }

-- A run of so many steps, with the answer to each step by its number from the end.
unfoldable pub run : OrchestratorConfig → (ℕ → Answer) → ℕ → Position → Position
run config answers zero p = p
run config answers (suc n) p = run config answers n (step config (answers n) p)

abbrev pub start : State → Position
start s = record { node = inject_runtime; state = s }
