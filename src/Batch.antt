-- ===== src/Batch.antt =====
-- app/batch: `BatchTaskService` of tasks.py, and the requests of app/api/routes/batch.py, which make
-- a service of their own each. The id of a task is its key in the memory and in the table. Whether
-- the database answers is an input of each call; times are clock ticks.
pub mod Restart
pub mod Listing
pub mod Jobs
pub mod Rollback
pub mod Sync
pub mod Changes
mod Tests
use prd2tsd.Prelude.{
  ℕ, String, Option, none, some, Bool, true, false, List, [], ◌∷◌, ◌++◌, map, leb, ◌=?◌, ◌||◌,
  if◌then◌else◌, length, take, keep_if,
}
use prd2tsd.Prelude.Dict.{Dict, lookup, insert, contains}

-- A task in the memory.
pub record Task : Type 0 where
  pub workspace_id : String
  pub task_type : String
  pub status : String
  pub progress : ℕ
  pub total : ℕ
  pub document_ids : Option (List String)
  pub prd_ids : Option (List String)
  pub created_at : ℕ
  pub finished_at : Option ℕ

-- A row of `batch_tasks`, with its payload's two keys.
pub record BatchTask : Type 0 where
  pub workspace_id : String
  pub task_type : String
  pub status : String
  pub progress : ℕ
  pub total : ℕ
  pub document_ids : Option (List String)
  pub prd_ids : Option (List String)
  pub created_at : ℕ
  pub updated_at : ℕ

pub record BatchTaskService : Type 0 where
  pub tasks : Dict Task
  pub table : Dict BatchTask

-- `_persist`
abbrev pub new_row : ℕ → Task → BatchTask
new_row now t = record {
  workspace_id = t.workspace_id;
  task_type = t.task_type;
  status = t.status;
  progress = t.progress;
  total = t.total;
  document_ids = t.document_ids;
  prd_ids = t.prd_ids;
  created_at = now;
  updated_at = now;
}

abbrev pub row_or_new : ℕ → Task → Option BatchTask → BatchTask
row_or_new now t none = new_row now t
row_or_new now t (some row) = record row {
  status = t.status;
  progress = t.progress;
  updated_at = now;
}

unfoldable pub persist : Bool → ℕ → String → Task → BatchTaskService → BatchTaskService
persist false now task_id t s = s
persist true now task_id t s = record s {
  table = insert task_id (row_or_new now t (lookup task_id s.table)) s.table;
}

-- `_load_from_db`
abbrev pub task_of : BatchTask → Task
task_of row = record {
  workspace_id = row.workspace_id;
  task_type = row.task_type;
  status = row.status;
  progress = row.progress;
  total = row.total;
  document_ids = row.document_ids;
  prd_ids = row.prd_ids;
  created_at = row.created_at;
  finished_at = none;
}

abbrev pub loaded : Option BatchTask → Option Task
loaded none = none
loaded (some row) = some (task_of row)

unfoldable pub load_from_db : Bool → String → BatchTaskService → Option Task
load_from_db false task_id s = none
load_from_db true task_id s = loaded (lookup task_id s.table)

-- What uuid4 and the clock give to a new task, and later to its row.
pub record Made : Type 0 where
  pub task_id : String
  pub now : ℕ
  pub later : ℕ

abbrev pub add_task : Bool → Made → Task → BatchTaskService → BatchTaskService
add_task up made t s =
    persist up made.later made.task_id t (record s { tasks = insert made.task_id t s.tasks })

abbrev pub reindex_task : Made → String → List String → Task
reindex_task made workspace_id document_ids = record {
  workspace_id = workspace_id;
  task_type = "reindex";
  status = "running";
  progress = 0;
  total = length document_ids;
  document_ids = some document_ids;
  prd_ids = none;
  created_at = made.now;
  finished_at = none;
}

abbrev pub regenerate_task : Made → String → List String → Task
regenerate_task made workspace_id prd_ids = record {
  workspace_id = workspace_id;
  task_type = "regenerate";
  status = "running";
  progress = 0;
  total = length prd_ids;
  document_ids = none;
  prd_ids = some prd_ids;
  created_at = made.now;
  finished_at = none;
}

unfoldable pub reindex_documents :
    Bool → Made → String → List String → BatchTaskService → String × BatchTaskService
reindex_documents up made workspace_id document_ids s =
    (made.task_id, add_task up made (reindex_task made workspace_id document_ids) s)

unfoldable pub regenerate_plans :
    Bool → Made → String → List String → BatchTaskService → String × BatchTaskService
regenerate_plans up made workspace_id prd_ids s =
    (made.task_id, add_task up made (regenerate_task made workspace_id prd_ids) s)

-- The task in the memory, or else the one in the table.
abbrev pub or_load : Bool → String → BatchTaskService → Option Task → Option Task
or_load up task_id s none = load_from_db up task_id s
or_load up task_id s (some t) = some t

unfoldable pub get_task_status : Bool → String → BatchTaskService → Option Task
get_task_status up task_id s = or_load up task_id s (lookup task_id s.tasks)

abbrev pub with_progress : ℕ → String → ℕ → Task → Task
with_progress progress status now t = record t {
  progress = progress;
  status = status;
  finished_at = if status =? "completed" || status =? "failed" then some now else t.finished_at;
}

abbrev pub update_found :
    Bool → String → ℕ → String → ℕ → Option Task → BatchTaskService → Bool × BatchTaskService
update_found up task_id progress status now none s = (false, s)
update_found up task_id progress status now (some t) s =
    let t' = with_progress progress status now t in
    (true, persist up now task_id t' (record s { tasks = insert task_id t' s.tasks }))

unfoldable pub update_progress :
    Bool → String → ℕ → String → ℕ → BatchTaskService → Bool × BatchTaskService
update_progress up task_id progress status now s =
    update_found up task_id progress status now (get_task_status up task_id s) s

-- `sorted(…, reverse=True)`, which keeps the order of the tasks of one time.
unfoldable pub insert_newest : String × Task → List (String × Task) → List (String × Task)
insert_newest x [] = x ∷ []
insert_newest x (y ∷ ys) =
    let rest = insert_newest x ys in
    if leb y.1.created_at x.1.created_at then x ∷ y ∷ ys else y ∷ rest

unfoldable pub newest_first : List (String × Task) → List (String × Task)
newest_first [] = []
newest_first (x ∷ xs) = insert_newest x (newest_first xs)

abbrev pub in_workspace : String → String × Task → Bool
in_workspace workspace_id (task_id, t) = t.workspace_id =? workspace_id

abbrev pub listed_rows : Bool → String → ℕ → BatchTaskService → List (String × Task)
listed_rows false workspace_id limit s = []
listed_rows true workspace_id limit s = take limit (
    newest_first (
      keep_if (in_workspace workspace_id) (map (λ (task_id, row). (task_id, task_of row)) s.table)))

abbrev pub not_in_memory : Dict Task → String × Task → Bool
not_in_memory tasks (task_id, t) = if contains task_id tasks then false else true

-- `list_tasks`
unfoldable pub list_tasks : Bool → String → ℕ → BatchTaskService → List (String × Task)
list_tasks up workspace_id limit s =
    let tasks = keep_if (in_workspace workspace_id) s.tasks in
    let rows = keep_if (not_in_memory tasks) (listed_rows up workspace_id limit s) in
    take limit (newest_first (tasks ++ rows))

-- A new process, and every request of the API, starts with an empty memory.
abbrev pub restart : BatchTaskService → BatchTaskService
restart s = record s { tasks = [] }
