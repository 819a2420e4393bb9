-- ===== src/Orchestrator/Termination.antt =====
-- Every run of the graph of app/orchestrator/main_graph.py ends, whatever the layers, the classifier
-- and the reviewers answer.
use native.Mathlib.Decide.{dec_lt}
use mathlib.Core.Path.{subst}
use prd2tsd.Prelude.{
  sym, ◌∙◌, ℕ, zero, suc, ◌+◌, ◌-◌, ◌*◌, ◌≤◌, ◌<◌, ◌≡◌, refl, ◌⊎◌, inl, inr, arith, max,
}
use prd2tsd.Orchestrator.{
  OrchestratorConfig, complete, clarification_needed, State, Route, final_assembly, planning,
  generation, analysis_human_review, bound, decide,
}
use prd2tsd.Orchestrator.Graph.{
  Node, inject_runtime, classify, chat, retrieve, clarify, retrieve_memory, knowledge_retrieval,
  analysis, analysis_review, plan, plan_review, generate, evaluate, assemble, compress_memory,
  save_session, end, Answer, run_node, next_node, by_route, Position, step, run, start,
}

-- How many evaluations after the next one the iteration count allows.
abbrev spare : OrchestratorConfig → State → ℕ
spare config s = bound config s - s.iteration_count - 1

-- Steps to the end if every evaluation that may go back does.
distance : Node → ℕ → ℕ
distance end k = 0
distance save_session k = 1
distance clarify k = 1
distance compress_memory k = 2
distance chat k = 2
distance retrieve k = 2
distance assemble k = 3
distance evaluate k = 4 + 5 * k
distance generate k = 5 + 5 * k
distance plan_review k = 6 + 5 * k
distance plan k = 7 + 5 * k
distance analysis_review k = 8 + 5 * k
distance analysis k = 9 + 5 * k
distance knowledge_retrieval k = 10 + 5 * k
distance retrieve_memory k = 11 + 5 * k
distance classify k = 12 + 5 * k
distance inject_runtime k = 13 + 5 * k

abbrev to_end : OrchestratorConfig → Position → ℕ
to_end config p = distance p.node (spare config p.state)

by_route-distance : (r : Route) (k : ℕ) → distance (by_route r) k ≤ 8 + 5 * k
unfolding distance by_route
by_route-distance final_assembly k = omega arith
by_route-distance planning k = omega arith
by_route-distance generation k = omega arith
by_route-distance analysis_human_review k = omega arith

-- At its bound the count sends the run to the assembly, whatever the report.
pub decide_at_bound :
    (config : OrchestratorConfig) (s : State)
    → bound config s ≤ s.iteration_count
    → decide config s ≡ final_assembly
unfolding decide
decide_at_bound config s h = ground arith

distance-decide :
    (config : OrchestratorConfig) (s : State)
    → distance (by_route (decide config s)) (spare config s)
      ≤ 3 + 5 * (bound config s - s.iteration_count)
unfolding distance by_route
distance-decide config s = elim (dec_lt s.iteration_count (bound config s)) [
  | yes h ↦ omega (arith, by_route-distance (decide config s) (spare config s))
  | no h ↦
      subst
        (λ r. distance (by_route r) (spare config s) ≤ 3 + 5 * (bound config s - s.iteration_count))
        (sym (decide_at_bound config s (omega (arith, h)))) (omega arith)
]

closer :
    (config : OrchestratorConfig) (a : Answer) (node : Node) (s : State)
    → to_end config (step config a (record { node = node; state = s }))
      ≤ distance node (spare config s) - 1
unfolding step run_node next_node distance
closer config a evaluate s = omega (arith, distance-decide config (run_node evaluate a s))
closer config a end s = omega arith
closer config a classify s = ground arith
closer config a analysis s = ground arith
closer config a plan s = ground arith
closer config a analysis_review s = ground arith
closer config a plan_review s = ground arith
closer config a _ s = omega arith

at_end : (node : Node) (k : ℕ) → distance node k ≤ 0 → node ≡ end
unfolding distance
at_end end k h = refl
at_end node k h = ground arith

run_arrives :
    (config : OrchestratorConfig) (answers : ℕ → Answer) (n : ℕ) (p : Position)
    → to_end config p ≤ n
    → (run config answers n p).node ≡ end
unfolding run
run_arrives config answers zero p h = at_end p.node (spare config p.state) h
run_arrives config answers (suc n) p h =
    run_arrives config answers n (step config (answers n) p)
      (omega (arith, h, closer config (answers n) p.node p.state))

-- What a run that is over leaves behind.
abbrev pub Closed : State → Type 0
Closed s = (s.progress ≡ 100) × ((s.status ≡ complete) ⊎ (s.status ≡ clarification_needed))

-- What holds before each node: the count has room for one more evaluation until it has been made,
-- and the outcome is written once the run is past its last layer.
abbrev Fits : OrchestratorConfig → Node → State → Type 0
Fits config compress_memory s = (s.iteration_count ≤ max 1 (bound config s)) × Closed s
Fits config save_session s = (s.iteration_count ≤ max 1 (bound config s)) × Closed s
Fits config end s = (s.iteration_count ≤ max 1 (bound config s)) × Closed s
Fits config assemble s = s.iteration_count ≤ max 1 (bound config s)
Fits config _ s = s.iteration_count < max 1 (bound config s)

back-Fits :
    (config : OrchestratorConfig) (s : State) (r : Route)
    → s.iteration_count < max 1 (bound config s)
    → Fits config (by_route r) s
unfolding by_route
back-Fits config s final_assembly h = omega (arith, h)
back-Fits config s planning h = h
back-Fits config s generation h = h
back-Fits config s analysis_human_review h = h

by_route-Fits :
    (config : OrchestratorConfig) (s : State)
    → s.iteration_count ≤ max 1 (bound config s)
    → Fits config (by_route (decide config s)) s
unfolding by_route
by_route-Fits config s h = elim (dec_lt s.iteration_count (bound config s)) [
  | yes lt ↦ back-Fits config s (decide config s) (omega (arith, lt))
  | no ge ↦
      subst (λ r. Fits config (by_route r) s) (sym (decide_at_bound config s (omega (arith, ge)))) h
]

step-Fits :
    (config : OrchestratorConfig) (a : Answer) (node : Node) (s : State)
    → Fits config node s
    → Fits config
        (step config a (record { node = node; state = s })).node
        (step config a (record { node = node; state = s })).state
unfolding step run_node next_node
step-Fits config a evaluate s h = by_route-Fits config (run_node evaluate a s) (omega (arith, h))
step-Fits config a classify s h = ground arith
step-Fits config a analysis s h = ground arith
step-Fits config a analysis_review s h = ground arith
step-Fits config a plan s h = ground arith
step-Fits config a plan_review s h = ground arith
step-Fits config a chat s h = (omega (arith, h), (refl, inl refl))
step-Fits config a retrieve s h = (omega (arith, h), (refl, inl refl))
step-Fits config a clarify s h = (omega (arith, h), (refl, inr refl))
step-Fits config a assemble s h = (h, (refl, inl refl))
step-Fits config a _ s h = h

run-Fits :
    (config : OrchestratorConfig) (answers : ℕ → Answer) (n : ℕ) (p : Position)
    → Fits config p.node p.state
    → Fits config (run config answers n p).node (run config answers n p).state
unfolding run
run-Fits config answers zero p h = h
run-Fits config answers (suc n) p h =
    run-Fits config answers n (step config (answers n) p)
      (step-Fits config (answers n) p.node p.state h)

step_keeps_bound :
    (config : OrchestratorConfig) (a : Answer) (node : Node) (s : State)
    → bound config (step config a (record { node = node; state = s })).state ≡ bound config s
unfolding step run_node
step_keeps_bound config a analysis_review s = ground arith
step_keeps_bound config a plan_review s = ground arith
step_keeps_bound config a _ s = refl

run_keeps_bound :
    (config : OrchestratorConfig) (answers : ℕ → Answer) (n : ℕ) (p : Position)
    → bound config (run config answers n p).state ≡ bound config p.state
unfolding run
run_keeps_bound config answers zero p = refl
run_keeps_bound config answers (suc n) p =
    run_keeps_bound config answers n (step config (answers n) p)
    ∙ step_keeps_bound config (answers n) p.node p.state

-- A run from the start with a fresh count is over within thirteen steps and five more for each
-- iteration beyond the first that the bound allows, whatever the layers, the classifier and the
-- reviewers answer: it stands at the end with progress 100 and a status of complete or
-- clarification_needed, and has evaluated at most as often as the bound says, or once.
pub run_completes :
    (config : OrchestratorConfig) (answers : ℕ → Answer) (n : ℕ) (s : State)
    → s.iteration_count ≡ 0
    → 13 + 5 * (bound config s - 1) ≤ n
    → ((run config answers n (start s)).node ≡ end)
      × ((run config answers n (start s)).state.iteration_count ≤ max 1 (bound config s))
      × Closed (run config answers n (start s)).state
unfolding distance
run_completes config answers n s fresh enough =
    let over : (run config answers n (start s)).node ≡ end =
      run_arrives config answers n (start s) (omega (arith, fresh, enough)) in
    let fits : Fits config end (run config answers n (start s)).state =
      subst (λ node. Fits config node (run config answers n (start s)).state) over
        (run-Fits config answers n (start s) (omega (arith, fresh))) in
    (over, omega (arith, fits.0, run_keeps_bound config answers n (start s)), fits.1)
