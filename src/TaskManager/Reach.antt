-- ===== src/TaskManager/Reach.antt =====
-- The requests and the coroutines of app/task_manager.py in any order, with restarts of the process
-- and outages of the database. A request or a coroutine is one step here, so that nothing comes
-- between the change in memory and the write of the row; TaskManager/Segments cuts them there.
use prd2tsd.Prelude.{String, none, Bool, List, [], ◌∷◌, ◌++◌, ◌≡◌, ◌≢◌}
use prd2tsd.Prelude.Dict.{lookup}
use prd2tsd.TaskManager.{
  Job, execution, resumption, Manager, StepState, create_task, resolve_review,
}
use prd2tsd.TaskManager.Store.{Database}
use prd2tsd.TaskManager.Work.{Ending, execute_task, resume_task}

-- What a server does while its database stays as it is. A coroutine runs to its end at any later
-- time, its stream being whatever the graph yields; uuid4 gives an identifier that is not in use.
pub data Move : Manager → Manager → Type 0 where
  submit :
      (task_id thread_id session_id : String) (orchestrator : Bool) (m : Manager)
      → task_id ≢ ""
      → lookup task_id m.tasks ≡ none
      → Move m (create_task task_id thread_id session_id orchestrator m)
  review :
      (task_id stage decision : String) (m : Manager)
      → task_id ≢ ""
      → Move m (resolve_review task_id stage decision m).0
  execute :
      (task_id : String) (steps : List StepState) (ending : Ending) (m : Manager)
      (before after : List Job)
      → m.jobs ≡ before ++ execution task_id ∷ after
      → Move m (execute_task task_id steps ending (record m { jobs = before ++ after }))
  resume :
      (task_id stage decision : String) (steps : List StepState) (ending : Ending) (m : Manager)
      (before after : List Job)
      → m.jobs ≡ before ++ resumption task_id stage decision ∷ after
      → Move m
          (resume_task task_id stage decision steps ending (record m { jobs = before ++ after }))
  restart :
      (has_bus : Bool) (m : Manager)
      → Move m (record m { tasks = []; jobs = []; events = []; has_bus = has_bus })

abbrev pub boot : Database → Bool → Manager
boot store has_bus = record { tasks = []; store = store; has_bus = has_bus; events = []; jobs = [] }
