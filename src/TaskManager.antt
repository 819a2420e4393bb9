-- ===== src/TaskManager.antt =====
-- app/task_manager.py, `TaskManager`: the tasks in memory, the rows that app/task_manager_store.py
-- keeps of them, the events and the coroutines that are scheduled. Time stamps and metrics are left
-- out, and progress is in percent. The stream of the compiled graph is an input.
pub mod Store
pub mod Work
pub mod Effects
pub mod Coroutines
pub mod Reach
pub mod Segments
pub mod Exclusive
pub mod Refines
pub mod Stale
pub mod Review
pub mod Mirror
pub mod Restart
pub mod Interrupts
mod Tests
use prd2tsd.Prelude.{
  ℕ, zero, suc, String, Option, none, some, Bool, true, false, List, [], ◌∷◌, ◌++◌, keep_if, ltb,
  ◌=?◌, if◌then◌else◌,
}
use prd2tsd.Prelude.Dict.{Dict, lookup, insert}
use prd2tsd.TaskManager.Store.{
  Status, running, paused, resuming, complete, failed, is_paused, Run, Change, no_change, Database,
  create_task_run, update_task_run, load_task_run, load_paused_task_ids,
}

-- A task in memory: what its row has too, and the rest.
pub record Task : Type 0 where
  pub fields : Run
  pub chat_response : String
  pub orchestrator : Bool

pub data Event : Type 0 where
  created : Event
  log : String → Event
  progress_made : ℕ → String → Event
  status_changed : Status → Event
  review_required : String → Event
  review_resolved : String → String → Event
  done : Event
  error_raised : String → Event

-- A coroutine given to `asyncio.create_task`.
pub data Job : Type 0 where
  execution : String → Job
  resumption : String → String → String → Job

-- `_tasks`, the database, whether a bus is set, what was published to the channel of a task, the
-- oldest first, and the scheduled coroutines.
pub record Manager : Type 0 where
  pub tasks : Dict Task
  pub store : Database
  pub has_bus : Bool
  pub events : List (String × Event)
  pub jobs : List Job

-- An item that the graph's stream yields; a key that it lacks is `none`. The graph is compiled without
-- a stream mode, so that its items are keyed by node and lack all of these.
pub record StepState : Type 0 where
  pub status : Option Status
  pub progress : Option ℕ
  pub stage : Option String
  pub current_stage : Option String
  pub generation_result : Option String
  pub evaluation_report : Option String
  pub chat_response : Option String

abbrev pub get_or {ℓ} : {A : Type ℓ} → Option A → A → A
get_or none d = d
get_or (some a) d = a

-- `_emit`
unfoldable pub emit : String → Event → Manager → Manager
emit task_id event m =
    if m.has_bus then record m { events = m.events ++ (task_id, event) ∷ [] } else m

-- The record of a new task.
abbrev pub fresh_run : String → String → Run
fresh_run thread_id session_id = record {
  thread_id = thread_id;
  session_id = session_id;
  status = running;
  progress = 0;
  stage = "";
  interrupt_stage = "";
  result = none;
  evaluation = none;
  error = none;
}

abbrev pub fresh_task : String → String → Bool → Task
fresh_task thread_id session_id orchestrator = record {
  fields = fresh_run thread_id session_id;
  chat_response = "";
  orchestrator = orchestrator;
}

-- `create_task`, with the identifiers that uuid4 gives.
unfoldable pub create_task : String → String → String → Bool → Manager → Manager
create_task task_id thread_id session_id orchestrator m =
    let kept = record m {
      tasks = insert task_id (fresh_task thread_id session_id orchestrator) m.tasks;
      store = create_task_run task_id (fresh_run thread_id session_id) m.store;
    } in
    let told = emit task_id created kept in record told { jobs = execution task_id ∷ told.jobs }

-- A row as a task in memory, with the global orchestrator.
abbrev pub restored : Run → Task
restored run = record { fields = run; chat_response = ""; orchestrator = true }

unfoldable pub fields_or : Option Task → Option Run → Option Run
fields_or (some task) stored = some task.fields
fields_or none stored = stored

-- `get_task`, as far as a caller reads the record.
unfoldable pub get_task : String → Manager → Option Run
unfolding fields_or
get_task task_id m = fields_or (lookup task_id m.tasks) (load_task_run task_id m.store)

-- `get_pending_reviews`
pending : Dict Task → List (String × Run)
pending [] = []
pending ((i, task) ∷ d) =
    let rest = pending d in if is_paused task.fields.status then (i, task.fields) ∷ rest else rest

pub stored_runs : List String → Database → List (String × Run)
stored_runs [] store = []
stored_runs (i ∷ is) store =
    let rest = stored_runs is store in
    elim (load_task_run i store) [ none ↦ rest | some run ↦ (i, run) ∷ rest ]

nonempty_or {ℓ} : {A : Type ℓ} → List A → List A → List A
nonempty_or [] ys = ys
nonempty_or (x ∷ xs) ys = x ∷ xs

unfoldable pub get_pending_reviews : Manager → List (String × Run)
unfolding pending nonempty_or
get_pending_reviews m =
    nonempty_or (pending m.tasks) (stored_runs (load_paused_task_ids m.store) m.store)

abbrev pub with_status : Status → Task → Task
with_status status task = record task { fields = record task.fields { status = status } }

-- `resolve_review` once the record is found: the guard on the status, the change to `resuming` in
-- memory and in the row, and the coroutine, if there is a graph to resume.
unfoldable pub resolve_found : String → String → String → Task → Manager → Manager × Bool
resolve_found task_id stage decision task m =
    let claimed = record m {
      tasks = insert task_id (with_status resuming task) m.tasks;
      store = update_task_run task_id (record no_change { status = some resuming }) m.store;
    } in
    if is_paused task.fields.status
    then (if task.orchestrator
        then (record claimed { jobs = resumption task_id stage decision ∷ m.jobs }, true)
        else (claimed, false))
    else (m, false)

-- The row of a task that is not in memory.
unfoldable pub resolve_stored : String → String → String → Option Run → Manager → Manager × Bool
resolve_stored task_id stage decision none m = (m, false)
resolve_stored task_id stage decision (some run) m =
    resolve_found task_id stage decision (restored run)
      (record m { tasks = insert task_id (restored run) m.tasks })

unfoldable pub resolve_with : String → String → String → Option Task → Manager → Manager × Bool
resolve_with task_id stage decision (some task) m = resolve_found task_id stage decision task m
resolve_with task_id stage decision none m =
    resolve_stored task_id stage decision (load_task_run task_id m.store) m

-- `resolve_review`
unfoldable pub resolve_review : String → String → String → Manager → Manager × Bool
unfolding resolve_with
resolve_review task_id stage decision m =
    resolve_with task_id stage decision (lookup task_id m.tasks) m
