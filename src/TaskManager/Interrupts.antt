-- ===== src/TaskManager/Interrupts.antt =====
-- How `_execute_task` and `_resume_task` of app/task_manager.py end on a stream whose last item lacks
-- the keys of a state, as an item of the graph's updates, keyed by its node or by `__interrupt__`, does.
use prd2tsd.Prelude.{
  String, none, some, true, false, List, ◌≡◌, refl, ap, ◌∙◌, arith, if◌then◌else◌,
}
use prd2tsd.Prelude.Dict.{lookup}
use prd2tsd.TaskManager.{
  Task, Manager, StepState, get_or, get_task, fields_or, resolve_review, emit, progress_made,
  status_changed, review_resolved, log, done,
}
use prd2tsd.TaskManager.Store.{Status, resuming, complete, Run, load_task_run}
use prd2tsd.TaskManager.Work.{
  with_result, settle_execute, settle_resume, settle_state, update_result, write_result, finished,
  execute_task, execute_with, stream_execute, resume_task, emit_steps, last_state, mark_failed,
}
use prd2tsd.TaskManager.Effects.{Alike, Alike-trans, updated_known, emit-Alike, emit_steps-Alike}
use prd2tsd.TaskManager.Review.{review_found, idle_found}

-- An item without any of the keys.
abbrev pub update_item : StepState
update_item = record {
  status = none;
  progress = none;
  stage = none;
  current_stage = none;
  generation_result = none;
  evaluation_report = none;
  chat_response = none;
}

result_lookup :
    (i : String) (final : StepState) (t : Task) (m : Manager)
    → lookup i m.tasks ≡ some t
    → lookup i (update_result i final m).tasks ≡ some (with_result final t)
unfolding update_result
result_lookup i final t m found =
    let n : Manager = write_result i final m in
    let n1 : Manager = emit i (progress_made 100 "complete") n in
    let status : Status = get_or final.status complete in
    let n2 : Manager = emit i (status_changed status) n1 in
    ap (lookup i) (
      (emit-Alike i done n2).0
      ∙ (emit-Alike i (status_changed status) n1).0
      ∙ (emit-Alike i (progress_made 100 "complete") n).0)
    ∙ updated_known i (with_result final) m.tasks t found

-- What the service answers of a task, and whether it takes a review of it.
abbrev pub Closed : String → Manager → Type 0
Closed i m =
    ((run : Run) × (get_task i m ≡ some run)
      × (run.status ≡ complete)
      × (run.progress ≡ 100)
      × (run.stage ≡ "")
      × (run.interrupt_stage ≡ "")
      × (run.result ≡ none))
    × ((stage decision : String) → resolve_review i stage decision m ≡ (m, false))

recorded-Closed :
    (i : String) (t : Task) (m : Manager)
    → lookup i m.tasks ≡ some (with_result update_item t)
    → Closed i m
unfolding get_task fields_or
recorded-Closed i t m recorded = (
  (
    (with_result update_item t).fields,
    ap (λ o. fields_or o (load_task_run i m.store)) recorded,
    refl,
    refl,
    refl,
    refl,
    refl,
  ),
  λ stage decision.
      review_found i stage decision (with_result update_item t) m recorded
      ∙ idle_found i stage decision (with_result update_item t) m (λ e. ground (arith, e)),
)

executed :
    (i : String) (steps : List StepState) (t : Task) (m : Manager)
    → lookup i m.tasks ≡ some t
    → t.orchestrator ≡ true
    → last_state steps ≡ some update_item
    → lookup i (execute_task i steps finished m).tasks ≡ some (with_result update_item t)
unfolding execute_task execute_with stream_execute settle_execute settle_state
executed i steps t m found ready last =
    let m1 : Manager = emit i (log "开始任务执行...") m in
    let m2 : Manager = emit i (progress_made 0 "initializing") m1 in
    let m3 : Manager = emit_steps i steps m2 in
    let a : Alike m m3 = Alike-trans m m1 m3 (emit-Alike i (log "开始任务执行...") m) (
      Alike-trans m1 m2 m3 (emit-Alike i (progress_made 0 "initializing") m1)
        (emit_steps-Alike i steps m2)) in
    ap (λ o. lookup i (execute_with i steps finished o m).tasks) found
    ∙ ap
        (λ b.
          lookup i
            (if b
              then settle_execute i (last_state steps) m3
              else mark_failed i "Orchestrator 引用为空" m).tasks)
        ready
    ∙ ap (λ o. lookup i (settle_execute i o m3).tasks) last
    ∙ result_lookup i update_item t m3 (ap (lookup i) a.0 ∙ found)

resumed :
    (i stage decision : String) (steps : List StepState) (t : Task) (m : Manager)
    → lookup i m.tasks ≡ some t
    → last_state steps ≡ some update_item
    → lookup i (resume_task i stage decision steps finished m).tasks
      ≡ some (with_result update_item t)
unfolding resume_task settle_resume
resumed i stage decision steps t m found last =
    let m1 : Manager = emit i (review_resolved stage decision) m in
    let m2 : Manager = emit i (status_changed resuming) m1 in
    let m3 : Manager = emit_steps i steps m2 in
    let a : Alike m m3 = Alike-trans m m1 m3 (emit-Alike i (review_resolved stage decision) m) (
      Alike-trans m1 m2 m3 (emit-Alike i (status_changed resuming) m1)
        (emit_steps-Alike i steps m2)) in
    ap (λ o. lookup i (settle_resume i o m3).tasks) last
    ∙ result_lookup i update_item t m3 (ap (lookup i) a.0 ∙ found)

-- A task in memory with a graph whose stream ends, without an exception, with an item that has none
-- of the keys of a state: after a first run and after a resumed run, whether the graph went to its
-- end or was interrupted for a review, the service answers that the task is complete, with progress
-- 100, no stage and no result, and it refuses every review of it.
pub updates_never_pause :
    (i : String) (steps : List StepState) (t : Task) (m : Manager)
    → lookup i m.tasks ≡ some t
    → t.orchestrator ≡ true
    → last_state steps ≡ some update_item
    → Closed i (execute_task i steps finished m)
      × ((stage decision : String) → Closed i (resume_task i stage decision steps finished m))
updates_never_pause i steps t m found ready last = (
  recorded-Closed i t (execute_task i steps finished m) (executed i steps t m found ready last),
  λ stage decision.
      recorded-Closed i t (resume_task i stage decision steps finished m)
        (resumed i stage decision steps t m found last),
)
