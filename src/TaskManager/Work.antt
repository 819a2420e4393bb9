-- ===== src/TaskManager/Work.antt =====
-- The coroutines of app/task_manager.py: `_execute_task`, `_resume_task`, `_update_result` and
-- `_mark_failed`, each to its end in one step. TaskManager/Segments has the steps that they are cut
-- into where they give up the lock or wait.
use prd2tsd.Prelude.{String, Option, none, some, List, [], ◌∷◌, ltb, if◌then◌else◌}
use prd2tsd.Prelude.Dict.{Dict, lookup, insert}
use prd2tsd.TaskManager.{
  Task, log, progress_made, status_changed, review_required, review_resolved, done, error_raised,
  Manager, StepState, get_or, emit,
}
use prd2tsd.TaskManager.Store.{
  Status, running, paused, resuming, complete, failed, Change, no_change, update_task_run,
}

-- How the stream ends: with its last state, if there is one, or with an exception.
pub data Ending : Type 0 where
  finished : Ending
  raised : String → Ending

-- A change of a task that is in memory.
update_in : String → (Task → Task) → Option Task → Dict Task → Dict Task
update_in task_id f none tasks = tasks
update_in task_id f (some task) tasks = insert task_id (f task) tasks

unfoldable pub updated : String → (Task → Task) → Dict Task → Dict Task
unfolding update_in
updated task_id f tasks = update_in task_id f (lookup task_id tasks) tasks

abbrev pub with_result : StepState → Task → Task
with_result final task = record task {
  fields = record task.fields {
    status = get_or final.status complete;
    progress = get_or final.progress 100;
    stage = get_or final.stage "";
    interrupt_stage = "";
    result = final.generation_result;
    evaluation = final.evaluation_report;
  };
  chat_response = get_or final.chat_response "";
}

-- What `_update_result` writes to the row: of the record, if there is one.
unfoldable pub result_change : Status → Option Task → Change
result_change status none = record no_change {
  status = some status;
  progress = some 100;
  stage = some "";
  interrupt_stage = some "";
}
result_change status (some task) = record no_change {
  status = some task.fields.status;
  progress = some task.fields.progress;
  stage = some task.fields.stage;
  interrupt_stage = some "";
  result = task.fields.result;
  evaluation = task.fields.evaluation;
}

-- `_update_result` before its events.
abbrev pub write_result : String → StepState → Manager → Manager
write_result task_id final m =
    let tasks = updated task_id (with_result final) m.tasks in
    record m {
      tasks = tasks;
      store =
          update_task_run task_id
            (result_change (get_or final.status complete) (lookup task_id tasks)) m.store;
    }

-- `_update_result`
unfoldable pub update_result : String → StepState → Manager → Manager
update_result task_id final m = emit task_id done (
    emit task_id (status_changed (get_or final.status complete))
      (emit task_id (progress_made 100 "complete") (write_result task_id final m)))

abbrev pub with_failure : String → Task → Task
with_failure error task = record task {
  fields = record task.fields { status = failed; error = some error };
}

abbrev pub failure_change : String → Change
failure_change error = record no_change { status = some failed; error = some error }

-- `_mark_failed` before its events.
abbrev pub write_failure : String → String → Manager → Manager
write_failure task_id error m = record m {
  tasks = updated task_id (with_failure error) m.tasks;
  store = update_task_run task_id (failure_change error) m.store;
}

-- `_mark_failed`
unfoldable pub mark_failed : String → String → Manager → Manager
mark_failed task_id error m =
    emit task_id (error_raised error)
      (emit task_id (status_changed failed) (write_failure task_id error m))

abbrev pub with_pause : String → Task → Task
with_pause stage task = record task {
  fields = record task.fields { status = paused; stage = stage; interrupt_stage = stage };
}

abbrev pub pause_change : String → Change
pause_change stage = record no_change {
  status = some paused;
  stage = some stage;
  interrupt_stage = some stage;
}

-- The pause of a task at a stage, in memory and in its row.
unfoldable pub pause_task : String → String → Manager → Manager
pause_task task_id stage m = record m {
  tasks = updated task_id (with_pause stage) m.tasks;
  store = update_task_run task_id (pause_change stage) m.store;
}

-- The progress events of a stream.
unfoldable pub emit_steps : String → List StepState → Manager → Manager
emit_steps task_id [] m = m
emit_steps task_id (s ∷ steps) m =
    let progress = get_or s.progress 0 in
    let m' =
      if ltb 0 progress then emit task_id (progress_made progress (get_or s.stage "")) m else m in
    emit_steps task_id steps m'

unfoldable pub last_state : List StepState → Option StepState
last_state [] = none
last_state (s ∷ []) = some s
last_state (s ∷ (t ∷ steps)) = last_state (t ∷ steps)

-- The keys are those of the last item of the stream, whatever the graph's values are.
-- The end of a first run: a last state that is not running is the result, and anything else is an
-- interrupt, which waits for a review.
unfoldable pub ask_review : String → String → Manager → Manager
ask_review task_id stage m =
    emit task_id (status_changed paused)
      (emit task_id (review_required stage) (pause_task task_id stage m))

unfoldable pub settle_state : String → StepState → Option Status → Manager → Manager
settle_state task_id final (some running) m = ask_review task_id (get_or final.current_stage "") m
settle_state task_id final _ m = update_result task_id final m

unfoldable pub settle_execute : String → Option StepState → Manager → Manager
unfolding ask_review settle_state
settle_execute task_id none m = ask_review task_id "" m
settle_execute task_id (some final) m = settle_state task_id final final.status m

-- The end of a resumed run.
unfoldable pub settle_resume : String → Option StepState → Manager → Manager
settle_resume task_id (some final) m = update_result task_id final m
settle_resume task_id none m = emit task_id (status_changed paused) (pause_task task_id "" m)

-- `_execute_task` for a record that has a graph.
unfoldable pub stream_execute : String → List StepState → Ending → Manager → Manager
stream_execute task_id steps ending m =
    let started =
      emit task_id (progress_made 0 "initializing") (emit task_id (log "开始任务执行...") m) in
    let streamed = emit_steps task_id steps started in
    elim ending [
      | finished ↦ settle_execute task_id (last_state steps) streamed
      | raised error ↦ mark_failed task_id error streamed
    ]

unfoldable pub execute_with : String → List StepState → Ending → Option Task → Manager → Manager
execute_with task_id steps ending none m = m
execute_with task_id steps ending (some task) m =
    if task.orchestrator
    then stream_execute task_id steps ending m
    else mark_failed task_id "Orchestrator 引用为空" m

-- `_execute_task`
unfoldable pub execute_task : String → List StepState → Ending → Manager → Manager
unfolding execute_with
execute_task task_id steps ending m = execute_with task_id steps ending (lookup task_id m.tasks) m

-- `_resume_task`
unfoldable pub resume_task : String → String → String → List StepState → Ending → Manager → Manager
resume_task task_id stage decision steps ending m =
    let started =
      emit task_id (status_changed resuming) (emit task_id (review_resolved stage decision) m) in
    let streamed = emit_steps task_id steps started in
    elim ending [
      | finished ↦ settle_resume task_id (last_state steps) streamed
      | raised error ↦ mark_failed task_id error streamed
    ]
