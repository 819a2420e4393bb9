-- ===== src/TaskManager/Store.antt =====
-- app/task_manager_store.py: the rows of the tasks. A database that is down loses a write and
-- answers a read with nothing.
use prd2tsd.Prelude.{
  ℕ, String, Option, none, some, Bool, true, false, List, [], ◌∷◌, ◌=?◌, if◌then◌else◌,
}
use prd2tsd.Prelude.Dict.{Dict, lookup, insert}

-- The statuses of a task.
pub data Status : Type 0 where
  running paused resuming complete failed clarification_needed : Status

abbrev pub is_paused : Status → Bool
is_paused paused = true
is_paused _ = false

-- A row `TaskRun`, by its task's identifier.
pub record Run : Type 0 where
  pub thread_id : String
  pub session_id : String
  pub status : Status
  pub progress : ℕ
  pub stage : String
  pub interrupt_stage : String
  pub result : Option String
  pub evaluation : Option String
  pub error : Option String

-- The keyword arguments of an update; one that is left out or None is `none`.
pub record Change : Type 0 where
  pub status : Option Status
  pub progress : Option ℕ
  pub stage : Option String
  pub interrupt_stage : Option String
  pub result : Option String
  pub evaluation : Option String
  pub error : Option String

abbrev pub no_change : Change
no_change = record {
  status = none;
  progress = none;
  stage = none;
  interrupt_stage = none;
  result = none;
  evaluation = none;
  error = none;
}

pub record Database : Type 0 where
  pub rows : Dict Run
  pub up : Bool

-- The value of a column after an update.
abbrev pub changed {ℓ} : {A : Type ℓ} → Option A → A → A
changed none old = old
changed (some new) old = new

abbrev pub changed_text : Option String → Option String → Option String
changed_text none old = old
changed_text (some new) old = some new

unfoldable pub apply_change : Change → Run → Run
apply_change c run = record run {
  status = changed c.status run.status;
  progress = changed c.progress run.progress;
  stage = changed c.stage run.stage;
  interrupt_stage = changed c.interrupt_stage run.interrupt_stage;
  result = changed_text c.result run.result;
  evaluation = changed_text c.evaluation run.evaluation;
  error = changed_text c.error run.error;
}

-- `create_task_run`
unfoldable pub create_task_run : String → Run → Database → Database
create_task_run task_id run store =
    if store.up then record store { rows = insert task_id run store.rows } else store

unfoldable pub update_row : String → Change → Option Run → Dict Run → Dict Run
update_row task_id c none rows = rows
update_row task_id c (some run) rows = insert task_id (apply_change c run) rows

-- `update_task_run`
unfoldable pub update_task_run : String → Change → Database → Database
unfolding update_row
update_task_run task_id c store =
    if task_id =? ""
    then store
    else if store.up
    then record store { rows = update_row task_id c (lookup task_id store.rows) store.rows }
    else store

-- `load_task_run`
unfoldable pub load_task_run : String → Database → Option Run
load_task_run task_id store = if store.up then lookup task_id store.rows else none

paused_ids : Dict Run → List String
paused_ids [] = []
paused_ids ((i, run) ∷ rows) =
    let rest = paused_ids rows in if is_paused run.status then i ∷ rest else rest

-- `load_paused_task_ids`, in the order of the rows: the source orders by the time of the last update.
unfoldable pub load_paused_task_ids : Database → List String
unfolding paused_ids
load_paused_task_ids store = if store.up then paused_ids store.rows else []
