-- ===== src/TaskManager/Stale.antt =====
-- A review of app/task_manager.py that comes while `_execute_task` still has to write the row of the
-- task that it paused.
use mathlib.Core.Path.{subst}
use prd2tsd.Prelude.{
  String, none, some, true, List, [], ◌∷◌, ◌≡◌, ◌≢◌, refl, ap, ◌∙◌, arith, eq_iff,
}
use prd2tsd.Prelude.Dict.{Dict, lookup, insert, lookup-insert_same}
use prd2tsd.TaskManager.{Task, Job, resumption, with_status, restored}
use prd2tsd.TaskManager.Store.{
  Run, Change, Database, paused, resuming, load_task_run, update_task_run, update_row, apply_change,
  no_change,
}
use prd2tsd.TaskManager.Work.{pause_change}
use prd2tsd.TaskManager.Segments.{
  Part, claimed, starting, streaming, settled, Server, claim, claim_found, load, load_row,
  claim_row, claims, claims_row, starts, writes, Steps, still, then_step,
}
use prd2tsd.TaskManager.Exclusive.{drivers}

-- A server with a task in memory, its row, and what its coroutines stand at.
abbrev with_all : Dict Task → Database → List Part → Server
with_all tasks store parts = record { tasks = tasks; store = store; parts = parts }

claim_lem :
    (i stage decision : String) (t : Task) (s : Server)
    → lookup i s.tasks ≡ some t
    → t.fields.status ≡ paused
    → t.orchestrator ≡ true
    → claim i stage decision s
      ≡ with_all
          (insert i (with_status resuming t) s.tasks)
          s.store
          (claimed i stage decision true ∷ s.parts)
unfolding claim claim_found
claim_lem i stage decision t s found stopped ready = ground (arith, found, stopped, ready)

row_update :
    (i : String) (c : Change) (run : Run) (store : Database)
    → i ≢ ""
    → load_task_run i store ≡ some run
    → load_task_run i (update_task_run i c store) ≡ some (apply_change c run)
unfolding load_task_run update_task_run update_row
row_update i c run store named row =
    ground
      (arith, named, row, (eq_iff i "").0, lookup-insert_same i (apply_change c run) store.rows)

paused_after :
    (stage : String) (run : Run) → (apply_change (pause_change stage) run).status ≡ paused
unfolding apply_change
paused_after stage run = refl

load_lem :
    (i : String) (run : Run) (store : Database) (parts : List Part)
    → load_task_run i store ≡ some run
    → load i (with_all [] store parts) ≡ with_all (insert i (restored run) []) store parts
unfolding load load_row lookup
load_lem i run store parts row = ap (λ r. load_row i none r (with_all [] store parts)) row

-- What the review and the write that comes late leave.
abbrev late : String → String → String → String → Task → Server → Server
late i stage decision asked t s =
    with_all (insert i (with_status resuming t) s.tasks)
      (update_task_run i (pause_change asked) (claim_row i s.store))
      (streaming (resumption i stage decision) ∷ [])

late-Steps :
    (i stage decision asked : String) (t : Task) (s : Server)
    → lookup i s.tasks ≡ some t
    → t.fields.status ≡ paused
    → t.orchestrator ≡ true
    → s.parts ≡ settled i (pause_change asked) ∷ []
    → Steps s (late i stage decision asked t s)
late-Steps i stage decision asked t s found stopped ready last =
    let job : Job = resumption i stage decision in
    let rest : List Part = settled i (pause_change asked) ∷ [] in
    let tasks : Dict Task = insert i (with_status resuming t) s.tasks in
    let n0 : Server = with_all tasks s.store (claimed i stage decision true ∷ rest) in
    let n1 : Server = with_all tasks (claim_row i s.store) (starting job ∷ rest) in
    let n2 : Server = with_all tasks (claim_row i s.store) (streaming job ∷ rest) in
    let e : claim i stage decision s ≡ n0 =
      claim_lem i stage decision t s found stopped ready
      ∙ ap (λ ps. with_all tasks s.store (claimed i stage decision true ∷ ps)) last in
    then_step n2 (late i stage decision asked t s)
      (then_step n1 n2
        (then_step n0 n1
          (subst (Steps s) e
            (then_step s (claim i stage decision s) still (claims i stage decision s)))
          (claims_row i stage decision n0 [] rest refl))
        (starts job n1 [] rest refl))
      (writes i (pause_change asked) n2 (streaming job ∷ []) [] refl)

-- A task is paused in memory, and the coroutine that paused it still has to write its row, which is
-- there, in a database that is up. Then a review can be taken and its coroutine run while the row
-- says paused, and if the process restarts at that point, the row gives the task another review.
pub review_replayed :
    (i stage decision asked again : String) (t : Task) (run : Run) (s : Server)
    → lookup i s.tasks ≡ some t
    → t.fields.status ≡ paused
    → t.orchestrator ≡ true
    → s.parts ≡ settled i (pause_change asked) ∷ []
    → i ≢ ""
    → load_task_run i s.store ≡ some run
    → (n : Server) × Steps s n
      × (lookup i n.tasks ≡ some (with_status resuming t))
      × (n.parts ≡ streaming (resumption i stage decision) ∷ [])
      × ((r : Run) × (load_task_run i n.store ≡ some r) × (r.status ≡ paused))
      × (drivers i (claim i stage again (load i (record n { tasks = []; parts = [] }))).parts ≡ 1)
review_replayed i stage decision asked again t run s found stopped ready last named row =
    let n : Server = late i stage decision asked t s in
    let taken : Run = apply_change (record no_change { status = some resuming }) run in
    let left : Run = apply_change (pause_change asked) taken in
    let read : load_task_run i n.store ≡ some left =
      row_update i (pause_change asked) taken (claim_row i s.store) named
        (row_update i (record no_change { status = some resuming }) run s.store named row) in
    (
      n,
      late-Steps i stage decision asked t s found stopped ready last,
      lookup-insert_same i (with_status resuming t) s.tasks,
      refl,
      (left, read, paused_after asked taken),
      ap (λ m. drivers i (claim i stage again m).parts) (load_lem i left n.store [] read)
          ∙ ap (λ m. drivers i m.parts)
              (claim_lem i stage again (restored left)
                (with_all (insert i (restored left) []) n.store [])
                (lookup-insert_same i (restored left) []) (paused_after asked taken) refl)
          ∙ ground (arith, (eq_iff i i).1 refl),
    )
