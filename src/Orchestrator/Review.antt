-- ===== src/Orchestrator/Review.antt =====
-- The human reviews (app/orchestrator/nodes/human_review.py) and the edges behind them.
use prd2tsd.Prelude.{ℕ, zero, suc, none, ◌≡◌, refl, sym, ap, ◌∙◌, ◌=?◌, arith, some, true, eq_iff}
use prd2tsd.Orchestrator.{
  OrchestratorConfig, State, running, paused, route_by_intent, needs_review, decide,
}
use prd2tsd.Orchestrator.Graph.{
  Node, analysis_review, plan, plan_review, generate, Answer, Feedback, rejection, run_node,
  next_node, Position, step, run,
}

-- A state without what a review writes.
abbrev pub unreviewed : State → State
unreviewed s = record s { status = running; error_message = "" }

abbrev pub without_review : Position → Position
without_review p = record p { state = unreviewed p.state }

-- An answer without the reviewer's part.
abbrev pub silent : Answer → Answer
silent a = record a { feedback = none }

step-silent :
    (config : OrchestratorConfig) (a : Answer) (node : Node) (s : State)
    → without_review (step config a (record { node = node; state = s }))
      ≡ without_review (step config (silent a) (record { node = node; state = unreviewed s }))
unfolding step run_node next_node route_by_intent needs_review decide
step-silent config a analysis_review s = ground arith
step-silent config a plan_review s = ground arith
step-silent config a _ s = refl

run-silent :
    (config : OrchestratorConfig) (a b : ℕ → Answer)
    → ((k : ℕ) → silent (a k) ≡ silent (b k))
    → (n : ℕ) (p q : Position) → without_review p ≡ without_review q
    → without_review (run config a n p) ≡ without_review (run config b n q)
unfolding run
run-silent config a b same zero p q e = e
run-silent config a b same (suc n) p q e =
    run-silent config a b same n (step config (a n) p) (step config (b n) q) (
      step-silent config (a n) p.node p.state
      ∙ ap (λ c. without_review (step config c (without_review p))) (same n)
      ∙ ap (λ r. without_review (step config (silent (b n)) r)) e
      ∙ sym (step-silent config (b n) q.node q.state))

-- Two runs that differ only in what the reviewers say visit the same nodes, and differ in no field
-- but the status and the error message.
pub reviews_never_steer :
    (config : OrchestratorConfig) (a b : ℕ → Answer)
    → ((k : ℕ) → silent (a k) ≡ silent (b k))
    → (n : ℕ) (p : Position)
    → ((run config a n p).node ≡ (run config b n p).node)
      × (unreviewed (run config a n p).state ≡ unreviewed (run config b n p).state)
reviews_never_steer config a b same n p =
    let e : without_review (run config a n p) ≡ without_review (run config b n p) =
      run-silent config a b same n p p refl in
    (ap (λ q. q.node) e, ap (λ q. q.state) e)

-- A review that asks for changes pauses the state and keeps the comment, and the run goes on to the
-- node that follows an approval: the planning after the analysis, the generation after the plan.
pub needs_changes_passes :
    (config : OrchestratorConfig) (a : Answer) (f : Feedback) (s : State)
    → a.feedback ≡ some f
    → f.decision ≡ "needs_changes"
    → (step config a (record { node = analysis_review; state = s }) ≡ record {
      node = plan;
      state = record s { status = paused; error_message = rejection "analysis" f.comment };
    })
      × (step config a (record { node = plan_review; state = s }) ≡ record {
        node = generate;
        state = record s { status = paused; error_message = rejection "planning" f.comment };
      })
unfolding step run_node next_node
needs_changes_passes config a f s given asked =
    let yes : (f.decision =? "needs_changes") ≡ true =
      (eq_iff f.decision "needs_changes").1 asked in
    (ground arith, ground arith)
