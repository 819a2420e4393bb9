-- ===== src/TaskManager/Coroutines.antt =====
-- The effect of a whole coroutine of app/task_manager.py: it changes its own task and the task's row
-- alike, or neither.
use prd2tsd.Prelude.{String, Option, none, some, Bool, true, false, List, refl, if◌then◌else◌}
use prd2tsd.Prelude.Dict.{lookup}
use prd2tsd.TaskManager.{
  Task, Event, progress_made, Manager, StepState, get_or, emit, status_changed, review_required,
  review_resolved, log,
}
use prd2tsd.TaskManager.Store.{Status, running, paused, resuming}
use prd2tsd.TaskManager.Work.{
  Ending, finished, raised, mark_failed, pause_task, emit_steps, last_state, ask_review,
  settle_state, settle_execute, settle_resume, stream_execute, execute_with, execute_task,
  resume_task,
}
use prd2tsd.TaskManager.Effects.{
  Alike, Alike-trans, emit-Alike, emit_steps-Alike, Effect, untouched, before, after_emit,
  pause-Effect, failed-Effect, result-Effect,
}

ask-Effect : (i stage : String) (m : Manager) → Effect i m (ask_review i stage m)
unfolding ask_review
ask-Effect i stage m =
    let n : Manager = pause_task i stage m in
    after_emit i (status_changed paused) m (emit i (review_required stage) n)
      (after_emit i (review_required stage) m n (pause-Effect i stage m))

state-Effect :
    (i : String) (final : StepState) (status : Option Status) (m : Manager)
    → Effect i m (settle_state i final status m)
unfolding settle_state
state-Effect i final none m = result-Effect i final m
state-Effect i final (some running) m = ask-Effect i (get_or final.current_stage "") m
state-Effect i final (some _) m = result-Effect i final m

settle_execute-Effect :
    (i : String) (final : Option StepState) (m : Manager) → Effect i m (settle_execute i final m)
unfolding settle_execute
settle_execute-Effect i none m = ask-Effect i "" m
settle_execute-Effect i (some final) m = state-Effect i final final.status m

settle_resume-Effect :
    (i : String) (final : Option StepState) (m : Manager) → Effect i m (settle_resume i final m)
unfolding settle_resume
settle_resume-Effect i none m =
    after_emit i (status_changed paused) m (pause_task i "" m) (pause-Effect i "" m)
settle_resume-Effect i (some final) m = result-Effect i final m

pub stream-Alike :
    (i : String) (d e : Event) (steps : List StepState) (m : Manager)
    → Alike m (emit_steps i steps (emit i e (emit i d m)))
stream-Alike i d e steps m =
    let n : Manager = emit i d m in
    Alike-trans m (emit i e n) (emit_steps i steps (emit i e n))
      (Alike-trans m n (emit i e n) (emit-Alike i d m) (emit-Alike i e n))
      (emit_steps-Alike i steps (emit i e n))

stream_execute-Effect :
    (i : String) (steps : List StepState) (ending : Ending) (m : Manager)
    → Effect i m (stream_execute i steps ending m)
unfolding stream_execute
stream_execute-Effect i steps finished m =
    before i m _ _ (stream-Alike i (log "开始任务执行...") (progress_made 0 "initializing") steps m)
      (settle_execute-Effect i (last_state steps) _)
stream_execute-Effect i steps (raised error) m =
    before i m _ _ (stream-Alike i (log "开始任务执行...") (progress_made 0 "initializing") steps m)
      (failed-Effect i error _)

if-Effect :
    (b : Bool) (i : String) (m n o : Manager)
    → Effect i m n
    → Effect i m o
    → Effect i m (if b then n else o)
if-Effect true i m n o p q = p
if-Effect false i m n o p q = q

execute_with-Effect :
    (i : String) (steps : List StepState) (ending : Ending) (t : Option Task) (m : Manager)
    → Effect i m (execute_with i steps ending t m)
unfolding execute_with
execute_with-Effect i steps ending none m = untouched (refl, refl, refl)
execute_with-Effect i steps ending (some t) m =
    if-Effect t.orchestrator i m (stream_execute i steps ending m)
      (mark_failed i "Orchestrator 引用为空" m) (stream_execute-Effect i steps ending m)
      (failed-Effect i "Orchestrator 引用为空" m)

pub execute-Effect :
    (i : String) (steps : List StepState) (ending : Ending) (m : Manager)
    → Effect i m (execute_task i steps ending m)
unfolding execute_task
execute-Effect i steps ending m = execute_with-Effect i steps ending (lookup i m.tasks) m

pub resume-Effect :
    (i stage decision : String) (steps : List StepState) (ending : Ending) (m : Manager)
    → Effect i m (resume_task i stage decision steps ending m)
unfolding resume_task
resume-Effect i stage decision steps finished m =
    before i m _ _
      (stream-Alike i (review_resolved stage decision) (status_changed resuming) steps m)
      (settle_resume-Effect i (last_state steps) _)
resume-Effect i stage decision steps (raised error) m =
    before i m _ _
      (stream-Alike i (review_resolved stage decision) (status_changed resuming) steps m)
      (failed-Effect i error _)
