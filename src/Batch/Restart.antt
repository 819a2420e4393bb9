-- ===== src/Batch/Restart.antt =====
-- What a restart, or the next request with its own service, knows of the tasks of app/batch/tasks.py.
use prd2tsd.Prelude.{
  ℕ, String, Option, none, some, Bool, true, false, List, [], ◌≡◌, refl, sym, ap, ◌∙◌, ◌=?◌,
  if◌then◌else◌,
}
use prd2tsd.Prelude.Dict.{Dict, lookup, insert, lookup-insert}
use prd2tsd.Batch.{
  Task, BatchTask, BatchTaskService, new_row, row_or_new, persist, task_of, loaded, load_from_db,
  Made, add_task, reindex_task, regenerate_task, reindex_documents, regenerate_plans, or_load,
  get_task_status, with_progress, update_found, update_progress, restart,
}

-- A task without its times.
abbrev pub untimed : Option Task → Option Task
untimed none = none
untimed (some t) = some (record t { created_at = 0; finished_at = none })

-- Every task in the memory is in the table as well, but for the times.
pub IsStored : BatchTaskService → Type 0
IsStored s =
    (task_id : String) (t : Task)
    → lookup task_id s.tasks ≡ some t
    → untimed (loaded (lookup task_id s.table)) ≡ untimed (some t)

-- What the service does while the database answers; a new id is new to the table.
pub data Reach : BatchTaskService → Type 0 where
  started : (table : Dict BatchTask) → Reach (record { tasks = []; table = table })
  reindexed :
      (s : BatchTaskService) (made : Made) (workspace_id : String) (ids : List String)
      → Reach s
      → lookup made.task_id s.table ≡ none
      → Reach (reindex_documents true made workspace_id ids s).1
  regenerated :
      (s : BatchTaskService) (made : Made) (workspace_id : String) (ids : List String)
      → Reach s
      → lookup made.task_id s.table ≡ none
      → Reach (regenerate_plans true made workspace_id ids s).1
  updated :
      (s : BatchTaskService) (task_id : String) (progress : ℕ) (status : String) (now : ℕ)
      → Reach s
      → Reach (update_progress true task_id progress status now s).1
  restarted : (s : BatchTaskService) → Reach s → Reach (restart s)

-- One of two tasks and one of two rows, by the same test.
both_or :
    (b : Bool) (t u : Task) (row : BatchTask) (old : Option Task) (old_row : Option BatchTask)
    → untimed (some (task_of row)) ≡ untimed (some t)
    → (old ≡ some u → untimed (loaded old_row) ≡ untimed (some u))
    → (if b then some t else old) ≡ some u
    → untimed (loaded (if b then some row else old_row)) ≡ untimed (some u)
both_or true t u row old old_row same kept h = same ∙ ap untimed h
both_or false t u row old old_row same kept h = kept h

-- Writing a task to both places keeps them together, if the row that results is the task's.
written-IsStored :
    (s : BatchTaskService) (task_id : String) (t : Task) (row : BatchTask)
    → untimed (some (task_of row)) ≡ untimed (some t)
    → IsStored s
    → IsStored (record { tasks = insert task_id t s.tasks; table = insert task_id row s.table })
unfolding IsStored
written-IsStored s task_id t row same stored id u h =
    ap (λ o. untimed (loaded o)) (lookup-insert task_id id row s.table)
    ∙ both_or (task_id =? id) t u row (lookup id s.tasks) (lookup id s.table) same (stored id u)
        (sym (lookup-insert task_id id t s.tasks) ∙ h)

added-IsStored :
    (s : BatchTaskService) (made : Made) (t : Task)
    → lookup made.task_id s.table ≡ none
    → IsStored s
    → IsStored (add_task true made t s)
unfolding persist
added-IsStored s made t fresh stored =
    rw fresh (written-IsStored s made.task_id t (new_row made.later t) refl stored)

abbrev moved : ℕ → String → Option Task → Option Task
moved progress status none = none
moved progress status (some t) = some (record t { progress = progress; status = status })

-- The row of a task that moves on is the task's again.
moved_row :
    (progress : ℕ) (status : String) (now : ℕ) (t : Task) (row : Option BatchTask)
    → untimed (loaded row) ≡ untimed (some t)
    → let t' = with_progress progress status now t in
      untimed (some (task_of (row_or_new now t' row))) ≡ untimed (some t')
moved_row progress status now t none h = refl
moved_row progress status now t (some row) h = ap (moved progress status) h

found_stored :
    (s : BatchTaskService) (task_id : String) (t : Task) (known : Option Task)
    → IsStored s
    → lookup task_id s.tasks ≡ known
    → or_load true task_id s known ≡ some t
    → untimed (loaded (lookup task_id s.table)) ≡ untimed (some t)
unfolding IsStored load_from_db
found_stored s task_id t none stored e h = ap untimed h
found_stored s task_id t (some u) stored e h = stored task_id u e ∙ ap untimed h

update_found-IsStored :
    (s : BatchTaskService) (task_id : String) (progress : ℕ) (status : String) (now : ℕ)
    (found : Option Task)
    → IsStored s
    → get_task_status true task_id s ≡ found
    → IsStored (update_found true task_id progress status now found s).1
unfolding persist get_task_status
update_found-IsStored s task_id progress status now none stored e = stored
update_found-IsStored s task_id progress status now (some t) stored e =
    let t' : Task = with_progress progress status now t in
    let before = found_stored s task_id t (lookup task_id s.tasks) stored refl e in
    written-IsStored s task_id t' (row_or_new now t' (lookup task_id s.table))
      (moved_row progress status now t (lookup task_id s.table) before) stored

pub reach-IsStored : (s : BatchTaskService) → Reach s → IsStored s
unfolding IsStored reindex_documents regenerate_plans update_progress lookup
reach-IsStored s (started table) = λ id t h. cc h
reach-IsStored s' (reindexed s made workspace_id ids r fresh) =
    added-IsStored s made (reindex_task made workspace_id ids) fresh (reach-IsStored s r)
reach-IsStored s' (regenerated s made workspace_id ids r fresh) =
    added-IsStored s made (regenerate_task made workspace_id ids) fresh (reach-IsStored s r)
reach-IsStored s' (updated s task_id progress status now r) =
    update_found-IsStored s task_id progress status now (get_task_status true task_id s)
      (reach-IsStored s r) refl
reach-IsStored s' (restarted s r) = λ id t h. cc h

abbrev is_task : Option Task → Bool
is_task none = false
is_task (some t) = true

found_or_not :
    (task_id : String) (progress : ℕ) (status : String) (now : ℕ) (s : BatchTaskService)
    (found : Option Task)
    → (update_found true task_id progress status now found s).0 ≡ is_task (untimed found)
found_or_not task_id progress status now s none = refl
found_or_not task_id progress status now s (some t) = refl

row_answers :
    (s : BatchTaskService) (task_id : String) (known : Option Task)
    → IsStored s
    → lookup task_id s.tasks ≡ known
    → untimed (loaded (lookup task_id s.table)) ≡ untimed (or_load true task_id s known)
unfolding IsStored load_from_db
row_answers s task_id none stored e = refl
row_answers s task_id (some t) stored e = stored task_id t e

-- While the database is up, whatever batches are made and moved on, a restart changes no answer about
-- a batch but its times, and the next change of its progress succeeds exactly when it would have.
pub restart_answers :
    (s : BatchTaskService) (task_id : String) (progress : ℕ) (status : String) (now : ℕ)
    → Reach s
    → (untimed (get_task_status true task_id (restart s))
        ≡ untimed (get_task_status true task_id s))
      × ((update_progress true task_id progress status now (restart s)).0
          ≡ (update_progress true task_id progress status now s).0)
unfolding get_task_status update_progress load_from_db lookup
restart_answers s task_id progress status now r =
    let fresh : BatchTaskService = restart s in
    let same = row_answers s task_id (lookup task_id s.tasks) (reach-IsStored s r) refl in
    (
      same,
      found_or_not task_id progress status now fresh (loaded (lookup task_id s.table))
          ∙ ap is_task same
          ∙ sym (found_or_not task_id progress status now s (get_task_status true task_id s)),
    )
