-- ===== src/TaskManager/Segments.antt =====
-- `create_task`, `resolve_review`, `_execute_task` and `_resume_task` of app/task_manager.py, cut
-- where they give up the lock or wait: the change in memory, the write of the row and the start of
-- the coroutine are steps of their own, and anything may come between them. Events are left out.
use prd2tsd.Prelude.{
  String, Option, none, some, Bool, true, false, List, [], ◌∷◌, ◌++◌, ◌≡◌, if◌then◌else◌,
}
use prd2tsd.Prelude.Dict.{Dict, lookup, insert}
use prd2tsd.TaskManager.{
  Task, Job, execution, resumption, StepState, get_or, fresh_run, fresh_task, with_status, restored,
}
use prd2tsd.TaskManager.Store.{
  is_paused, resuming, complete, Run, Change, no_change, Database, create_task_run, update_task_run,
  load_task_run,
}
use prd2tsd.TaskManager.Work.{
  updated, with_result, result_change, with_pause, pause_change, with_failure, failure_change,
}

-- Where a call or a coroutine stands: a submission with its row still to be created, a review that
-- has claimed its task and still has to write the row, with or without a graph to resume, a coroutine
-- that is still to be given to the loop, one that is scheduled or streams, and one that has changed
-- the task in memory and still has to write the row.
pub data Part : Type 0 where
  creating : String → Run → Part
  claimed : String → String → String → Bool → Part
  starting : Job → Part
  streaming : Job → Part
  settled : String → Change → Part

-- What a coroutine ends with: a result, an interrupt, or an exception.
pub data Outcome : Type 0 where
  result : StepState → Outcome
  interrupt : String → Outcome
  failure : String → Outcome

pub record Server : Type 0 where
  pub tasks : Dict Task
  pub store : Database
  pub parts : List Part

abbrev pub owner : Job → String
owner (execution i) = i
owner (resumption i stage decision) = i

-- `create_task` under the lock.
unfoldable pub submit : String → String → String → Bool → Server → Server
submit i thread_id session_id orchestrator s = record s {
  tasks = insert i (fresh_task thread_id session_id orchestrator) s.tasks;
  parts = creating i (fresh_run thread_id session_id) ∷ s.parts;
}

-- `resolve_review` under the lock, for a task that is in memory.
unfoldable pub claim_found : String → String → String → Option Task → Server → Server
claim_found i stage decision none s = s
claim_found i stage decision (some task) s =
    if is_paused task.fields.status
    then record s {
      tasks = insert i (with_status resuming task) s.tasks;
      parts = claimed i stage decision task.orchestrator ∷ s.parts;
    }
    else s

unfoldable pub claim : String → String → String → Server → Server
unfolding claim_found
claim i stage decision s = claim_found i stage decision (lookup i s.tasks) s

-- `resolve_review` under the lock, for a task that is not in memory: the row is read first.
unfoldable pub load_row : String → Option Task → Option Run → Server → Server
load_row i none (some run) s = record s { tasks = insert i (restored run) s.tasks }
load_row i _ _ s = s

unfoldable pub load : String → Server → Server
unfolding load_row
load i s = load_row i (lookup i s.tasks) (load_task_run i s.store) s

-- What the task in memory becomes, and what is to be written to its row.
abbrev pub outcome_change : Outcome → Task → Task
outcome_change (result final) = with_result final
outcome_change (interrupt stage) = with_pause stage
outcome_change (failure error) = with_failure error

abbrev pub outcome_row : String → Outcome → Dict Task → Change
outcome_row i (result final) tasks = result_change (get_or final.status complete) (lookup i tasks)
outcome_row i (interrupt stage) tasks = pause_change stage
outcome_row i (failure error) tasks = failure_change error

-- The end of a coroutine under the lock.
unfoldable pub settle : String → Outcome → Server → Server
settle i o s =
    let tasks = updated i (outcome_change o) s.tasks in
    record s { tasks = tasks; parts = settled i (outcome_row i o tasks) ∷ s.parts }

abbrev pub claim_row : String → Database → Database
claim_row i = update_task_run i (record no_change { status = some resuming })

-- A step of one of them, in which a part that goes on changes its place. A coroutine's stream yields
-- whatever the graph yields; uuid4 gives an identifier that is not in use; a restart loses what is in
-- memory; the database goes up and down.
pub data Step : Server → Server → Type 0 where
  submits :
      (i thread_id session_id : String) (orchestrator : Bool) (s : Server)
      → lookup i s.tasks ≡ none
      → Step s (submit i thread_id session_id orchestrator s)
  creates :
      (i : String) (run : Run) (s : Server) (before after : List Part)
      → s.parts ≡ before ++ creating i run ∷ after
      → Step s (record s {
        store = create_task_run i run s.store;
        parts = before ++ starting (execution i) ∷ after;
      })
  loads : (i : String) (s : Server) → Step s (load i s)
  claims : (i stage decision : String) (s : Server) → Step s (claim i stage decision s)
  claims_row :
      (i stage decision : String) (s : Server) (before after : List Part)
      → s.parts ≡ before ++ claimed i stage decision true ∷ after
      → Step s (record s {
        store = claim_row i s.store;
        parts = before ++ starting (resumption i stage decision) ∷ after;
      })
  refuses :
      (i stage decision : String) (s : Server) (before after : List Part)
      → s.parts ≡ before ++ claimed i stage decision false ∷ after
      → Step s (record s { store = claim_row i s.store; parts = before ++ after })
  starts :
      (job : Job) (s : Server) (before after : List Part)
      → s.parts ≡ before ++ starting job ∷ after
      → Step s (record s { parts = before ++ streaming job ∷ after })
  settles :
      (job : Job) (o : Outcome) (s : Server) (before after : List Part)
      → s.parts ≡ before ++ streaming job ∷ after
      → Step s (settle (owner job) o (record s { parts = before ++ after }))
  writes :
      (i : String) (c : Change) (s : Server) (before after : List Part)
      → s.parts ≡ before ++ settled i c ∷ after
      → Step s (record s { store = update_task_run i c s.store; parts = before ++ after })
  restarts : (s : Server) → Step s (record s { tasks = []; parts = [] })
  switches : (up : Bool) (s : Server) → Step s (record s { store = record s.store { up = up } })

-- Any steps, one after the other.
pub data Steps (s : Server) : Server → Type 0 where
  still : Steps s s
  then_step : (t u : Server) → Steps s t → Step t u → Steps s u

abbrev pub fresh_server : Database → Server
fresh_server store = record { tasks = []; store = store; parts = [] }
