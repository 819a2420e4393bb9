-- ===== src/TaskManager/Refines.antt =====
-- The coroutines of TaskManager/Work, which are one step each, beside the steps of
-- TaskManager/Segments that they are made of.
use mathlib.Core.Path.{subst}
use prd2tsd.Prelude.{
  if◌then◌else◌, String, Option, none, some, Bool, true, false, List, [], ◌∷◌, ◌++◌, ◌≡◌, refl, sym,
  ap, ◌∙◌,
}
use prd2tsd.Prelude.Dict.{lookup}
use prd2tsd.TaskManager.{
  Task, Job, execution, resumption, Manager, StepState, get_or, emit, progress_made, status_changed,
  review_required, review_resolved, log, done, error_raised, Event,
}
use prd2tsd.TaskManager.Store.{Status, running, paused, resuming, complete, failed, update_task_run}
use prd2tsd.TaskManager.Work.{
  Ending, finished, raised, updated, update_result, write_result, mark_failed, write_failure,
  pause_task, ask_review, settle_state, settle_execute, settle_resume, stream_execute, execute_with,
  execute_task, resume_task, emit_steps, last_state,
}
use prd2tsd.TaskManager.Effects.{Alike, Alike-trans, emit-Alike}
use prd2tsd.TaskManager.Coroutines.{stream-Alike}
use prd2tsd.TaskManager.Segments.{
  Part, streaming, owner, Server, settle, settles, writes, Steps, still, then_step, Outcome, result,
  interrupt, failure, outcome_change, outcome_row,
}

-- The change in memory and the write of the row, one right after the other.
abbrev at_once : String → Outcome → Manager → Manager
at_once i o m =
    let tasks = updated i (outcome_change o) m.tasks in
    record m { tasks = tasks; store = update_task_run i (outcome_row i o tasks) m.store }

-- A coroutine comes to an outcome and does nothing else, its events aside.
abbrev Ends : String → Manager → Manager → Type 0
Ends i m n = (o : Outcome) × Alike (at_once i o m) n

after_emit-Ends : (i : String) (e : Event) (m n : Manager) → Ends i m n → Ends i m (emit i e n)
after_emit-Ends i e m n (o, a) =
    (o, Alike-trans (at_once i o m) n (emit i e n) a (emit-Alike i e n))

before-Ends : (i : String) (l m n : Manager) → Alike l m → Ends i m n → Ends i l n
before-Ends i l m n a (o, b) = (
  o,
  Alike-trans (at_once i o l) (at_once i o m) n
      (
        ap (updated i (outcome_change o)) a.0,
        ap (λ ts. update_task_run i (outcome_row i o (updated i (outcome_change o) ts)) m.store) a.0
            ∙ ap (update_task_run i (outcome_row i o (updated i (outcome_change o) l.tasks))) a.1,
        a.2,
      )
      b,
)

result-Ends : (i : String) (final : StepState) (m : Manager) → Ends i m (update_result i final m)
unfolding update_result
result-Ends i final m =
    let status : Status = get_or final.status complete in
    let n : Manager = write_result i final m in
    let n1 : Manager = emit i (progress_made 100 "complete") n in
    let n2 : Manager = emit i (status_changed status) n1 in
    after_emit-Ends i done m n2 (
      after_emit-Ends i (status_changed status) m n1
        (after_emit-Ends i (progress_made 100 "complete") m n (result final, (refl, refl, refl))))

failed-Ends : (i error : String) (m : Manager) → Ends i m (mark_failed i error m)
unfolding mark_failed
failed-Ends i error m =
    let n : Manager = write_failure i error m in
    after_emit-Ends i (error_raised error) m (emit i (status_changed failed) n)
      (after_emit-Ends i (status_changed failed) m n (failure error, (refl, refl, refl)))

pause-Ends : (i stage : String) (m : Manager) → Ends i m (pause_task i stage m)
unfolding pause_task
pause-Ends i stage m = (interrupt stage, (refl, refl, refl))

ask-Ends : (i stage : String) (m : Manager) → Ends i m (ask_review i stage m)
unfolding ask_review
ask-Ends i stage m =
    let n : Manager = pause_task i stage m in
    after_emit-Ends i (status_changed paused) m (emit i (review_required stage) n)
      (after_emit-Ends i (review_required stage) m n (pause-Ends i stage m))

state-Ends :
    (i : String) (final : StepState) (status : Option Status) (m : Manager)
    → Ends i m (settle_state i final status m)
unfolding settle_state
state-Ends i final none m = result-Ends i final m
state-Ends i final (some running) m = ask-Ends i (get_or final.current_stage "") m
state-Ends i final (some _) m = result-Ends i final m

settle_execute-Ends :
    (i : String) (final : Option StepState) (m : Manager) → Ends i m (settle_execute i final m)
unfolding settle_execute
settle_execute-Ends i none m = ask-Ends i "" m
settle_execute-Ends i (some final) m = state-Ends i final final.status m

settle_resume-Ends :
    (i : String) (final : Option StepState) (m : Manager) → Ends i m (settle_resume i final m)
unfolding settle_resume
settle_resume-Ends i none m =
    after_emit-Ends i (status_changed paused) m (pause_task i "" m) (pause-Ends i "" m)
settle_resume-Ends i (some final) m = result-Ends i final m

-- The events of a stream, after two others.
abbrev streamed : String → Event → Event → List StepState → Manager → Manager
streamed i d e steps m = emit_steps i steps (emit i e (emit i d m))

streamed-Ends :
    (i : String) (d e : Event) (steps : List StepState) (m n : Manager)
    → Ends i (streamed i d e steps m) n
    → Ends i m n
streamed-Ends i d e steps m n =
    before-Ends i m (streamed i d e steps m) n (stream-Alike i d e steps m)

stream_execute-Ends :
    (i : String) (steps : List StepState) (ending : Ending) (m : Manager)
    → Ends i m (stream_execute i steps ending m)
unfolding stream_execute
stream_execute-Ends i steps finished m =
    let d : Event = log "开始任务执行..." in
    let e : Event = progress_made 0 "initializing" in
    let l : Manager = streamed i d e steps m in
    streamed-Ends i d e steps m (settle_execute i (last_state steps) l)
      (settle_execute-Ends i (last_state steps) l)
stream_execute-Ends i steps (raised error) m =
    let d : Event = log "开始任务执行..." in
    let e : Event = progress_made 0 "initializing" in
    let l : Manager = streamed i d e steps m in
    streamed-Ends i d e steps m (mark_failed i error l) (failed-Ends i error l)

if-Ends :
    (b : Bool) (i : String) (m n o : Manager)
    → Ends i m n
    → Ends i m o
    → Ends i m (if b then n else o)
if-Ends true i m n o p q = p
if-Ends false i m n o p q = q

execute-Ends :
    (i : String) (steps : List StepState) (ending : Ending) (t : Task) (m : Manager)
    → lookup i m.tasks ≡ some t
    → Ends i m (execute_task i steps ending m)
unfolding execute_task execute_with
execute-Ends i steps ending t m found =
    subst (λ o. Ends i m (execute_with i steps ending o m)) (sym found)
      (if-Ends t.orchestrator i m (stream_execute i steps ending m)
        (mark_failed i "Orchestrator 引用为空" m) (stream_execute-Ends i steps ending m)
        (failed-Ends i "Orchestrator 引用为空" m))

resume-Ends :
    (i stage decision : String) (steps : List StepState) (ending : Ending) (m : Manager)
    → Ends i m (resume_task i stage decision steps ending m)
unfolding resume_task
resume-Ends i stage decision steps finished m =
    let d : Event = review_resolved stage decision in
    let e : Event = status_changed resuming in
    let l : Manager = streamed i d e steps m in
    streamed-Ends i d e steps m (settle_resume i (last_state steps) l)
      (settle_resume-Ends i (last_state steps) l)
resume-Ends i stage decision steps (raised error) m =
    let d : Event = review_resolved stage decision in
    let e : Event = status_changed resuming in
    let l : Manager = streamed i d e steps m in
    streamed-Ends i d e steps m (mark_failed i error l) (failed-Ends i error l)

-- What a manager keeps, with its calls and coroutines at the given places.
abbrev beside : Manager → List Part → Server
beside m parts = record { tasks = m.tasks; store = m.store; parts = parts }

Ends-Steps :
    (job : Job) (m n : Manager) (before after : List Part)
    → Ends (owner job) m n
    → Steps (beside m (before ++ streaming job ∷ after)) (beside n (before ++ after))
unfolding settle
Ends-Steps job m n before after (o, a) =
    let i : String = owner job in
    let start : Server = beside m (before ++ streaming job ∷ after) in
    let s : Server = settle i o (beside m (before ++ after)) in
    let c = outcome_row i o (updated i (outcome_change o) m.tasks) in
    let written : Server = beside (at_once i o m) (before ++ after) in
    let both : Steps start written =
      then_step s written (then_step start s still (settles job o start before after refl))
        (writes i c s [] (before ++ after) refl) in
    subst (λ ts. Steps start (record { tasks = ts; store = n.store; parts = before ++ after }))
      (sym a.0)
      (subst
        (λ d.
          Steps start
            (record { tasks = (at_once i o m).tasks; store = d; parts = before ++ after }))
        (sym a.1) both)

-- A coroutine that streams takes two steps to what it leaves when it runs to its end in one step: a
-- first run of a task that is in memory, and every resumed run.
coroutines_refined :
    (i : String) (steps : List StepState) (ending : Ending) (t : Task) (m : Manager)
    (before after : List Part)
    → lookup i m.tasks ≡ some t
    → Steps
        (beside m (before ++ streaming (execution i) ∷ after))
        (beside (execute_task i steps ending m) (before ++ after))
      × ((stage decision : String)
          → Steps
              (beside m (before ++ streaming (resumption i stage decision) ∷ after))
              (beside (resume_task i stage decision steps ending m) (before ++ after)))
coroutines_refined i steps ending t m before after found = (
  Ends-Steps (execution i) m (execute_task i steps ending m) before after
      (execute-Ends i steps ending t m found),
  λ stage decision.
      Ends-Steps (resumption i stage decision) m (resume_task i stage decision steps ending m)
        before after (resume-Ends i stage decision steps ending m),
)
