-- ===== src/TaskManager/Tests.antt =====
-- A task that is submitted, interrupted and reviewed.
use prd2tsd.Prelude.{
  String, none, some, true, false, [], ◌∷◌, ◌++◌, ◌≡◌, ◌≢◌, refl, ◌≤◌, arith, eq_iff, ap,
}
use prd2tsd.Prelude.Dict.{lookup, insert}
use prd2tsd.TaskManager.{
  Task, Job, with_status, Manager, StepState, create_task, emit, resolve_review, fresh_run,
}
use prd2tsd.TaskManager.Store.{
  running, paused, resuming, Run, Database, create_task_run, load_task_run,
}
use prd2tsd.TaskManager.Work.{
  finished, execute_task, resume_task, pause_change, execute_with, stream_execute, emit_steps,
  last_state, settle_execute, settle_state, ask_review, pause_task, updated,
}
use prd2tsd.TaskManager.Reach.{Move, submit, execute, boot}
use prd2tsd.TaskManager.Review.{subject_of, review_exactly, second_review_refused}
use prd2tsd.TaskManager.Restart.{Steady, restarted, paused_survives}
use prd2tsd.TaskManager.Interrupts.{update_item, Closed, updates_never_pause}
use prd2tsd.TaskManager.Segments
use prd2tsd.TaskManager.Segments.{
  creating, starting, streaming, settled, Server, interrupt, settle, claim, load, submits, creates,
  starts, settles, Steps, still, then_step, fresh_server,
}
use prd2tsd.TaskManager.Exclusive.{drivers, one_driver}
use prd2tsd.TaskManager.Stale.{review_replayed}

abbrev interrupted : StepState
interrupted = record {
  status = some running;
  progress = some 25;
  stage = none;
  current_stage = some "analysis";
  generation_result = none;
  evaluation_report = none;
  chat_response = none;
}

abbrev server : Manager
server = boot (record { rows = []; up = true }) true

abbrev submitted : Manager
submitted = create_task "t1" "thread" "session" true server

abbrev waiting : Manager
waiting = execute_task "t1" (interrupted ∷ []) finished (record submitted { jobs = [] })

abbrev waiting_run : Run
waiting_run = record (fresh_run "thread" "session") {
  status = paused;
  stage = "analysis";
  interrupt_stage = "analysis";
}

abbrev waiting_task : Task
waiting_task = record { fields = waiting_run; chat_response = ""; orchestrator = true }

named : ◌≢◌ {A = String} "t1" ""
named e = ground (arith, (eq_iff "t1" "").1 e)

submitted_jobs : submitted.jobs ≡ [] ++ Job.execution "t1" ∷ []
unfolding create_task emit
submitted_jobs = refl

new_task : lookup {V = Task} "t1" [] ≡ none
unfolding lookup
new_task = refl

submitting : Move server submitted
submitting = submit "t1" "thread" "session" true server named new_task

waiting-Steady : Steady waiting
waiting-Steady =
    Steady.moved submitted waiting
      (Steady.moved server submitted (Steady.booted [] true) submitting)
      (execute "t1" (interrupted ∷ []) finished submitted [] [] submitted_jobs)

waiting_lookup : lookup "t1" waiting.tasks ≡ some waiting_task
unfolding lookup insert create_task emit execute_task execute_with stream_execute emit_steps
    last_state settle_execute settle_state ask_review pause_task updated
waiting_lookup = refl

review_taken_once : (resolve_review "t1" "analysis" "approved" waiting).1 ≡ true
review_taken_once = (review_exactly "t1" "analysis" "approved" waiting).1 (
  waiting_task,
  ap (λ o. subject_of o (load_task_run "t1" waiting.store)) waiting_lookup,
  refl,
  refl,
)

second_review_refused_example :
    resolve_review "t1" "analysis" "needs_changes"
      (resolve_review "t1" "analysis" "approved" waiting).0
    ≡ ((resolve_review "t1" "analysis" "approved" waiting).0, false)
second_review_refused_example =
    second_review_refused "t1" "analysis" "approved" "analysis" "needs_changes" waiting
      review_taken_once

paused_survives_example : (resolve_review "t1" "analysis" "approved" (restarted waiting)).1 ≡ true
paused_survives_example =
    paused_survives waiting "t1" "analysis" "approved" waiting_task waiting-Steady waiting_lookup
      refl

abbrev submitted_task : Task
submitted_task = record {
  fields = fresh_run "thread" "session";
  chat_response = "";
  orchestrator = true;
}

submitted_lookup : lookup "t1" submitted.tasks ≡ some submitted_task
unfolding lookup insert create_task emit
submitted_lookup = refl

-- A node's update, and then the interrupt of the next one.
updates_last : last_state (update_item ∷ update_item ∷ []) ≡ some update_item
unfolding last_state
updates_last = refl

updates_never_pause_example :
    Closed "t1" (execute_task "t1" (update_item ∷ update_item ∷ []) finished submitted)
    × ((stage decision : String)
        → Closed "t1"
            (resume_task "t1" stage decision (update_item ∷ update_item ∷ []) finished submitted))
updates_never_pause_example =
    updates_never_pause "t1" (update_item ∷ update_item ∷ []) submitted_task submitted
      submitted_lookup refl updates_last

-- A server whose first task has paused, with its row still to be written.
abbrev empty_rows : Database
empty_rows = record { rows = []; up = true }

abbrev accepted : Server
accepted = Segments.submit "t1" "thread" "session" true (fresh_server empty_rows)

abbrev saved : Server
saved = record accepted {
  store = create_task_run "t1" (fresh_run "thread" "session") accepted.store;
  parts = starting (Job.execution "t1") ∷ [];
}

abbrev streamed : Server
streamed = record saved { parts = streaming (Job.execution "t1") ∷ [] }

abbrev pausing : Server
pausing = settle "t1" (interrupt "analysis") (record streamed { parts = [] })

accepted_parts : accepted.parts ≡ creating "t1" (fresh_run "thread" "session") ∷ []
unfolding Segments.submit
accepted_parts = refl

pausing-Steps : Steps (fresh_server empty_rows) pausing
pausing-Steps =
    then_step streamed pausing
      (then_step saved streamed
        (then_step accepted saved
          (then_step (fresh_server empty_rows) accepted still
            (submits "t1" "thread" "session" true (fresh_server empty_rows) new_task))
          (creates "t1" (fresh_run "thread" "session") accepted [] [] accepted_parts))
        (starts (Job.execution "t1") saved [] [] refl))
      (settles (Job.execution "t1") (interrupt "analysis") streamed [] [] refl)

one_driver_example :
    (drivers "t1" pausing.parts ≤ 1)
    × ((t : Task)
        → lookup "t1" pausing.tasks ≡ some t
        → t.fields.status ≡ paused
        → drivers "t1" pausing.parts ≡ 0)
one_driver_example = one_driver empty_rows pausing "t1" pausing-Steps

pausing_lookup : lookup "t1" pausing.tasks ≡ some waiting_task
unfolding lookup insert Segments.submit settle updated
pausing_lookup = refl

pausing_parts : pausing.parts ≡ settled "t1" (pause_change "analysis") ∷ []
unfolding settle
pausing_parts = refl

pausing_row : load_task_run "t1" pausing.store ≡ some (fresh_run "thread" "session")
unfolding Segments.submit settle load_task_run create_task_run lookup insert
pausing_row = refl

review_replayed_example :
    (n : Server) × Steps pausing n
    × (lookup "t1" n.tasks ≡ some (with_status resuming waiting_task))
    × (n.parts ≡ streaming (Job.resumption "t1" "analysis" "approved") ∷ [])
    × ((r : Run) × (load_task_run "t1" n.store ≡ some r) × (r.status ≡ paused))
    × (drivers "t1"
          (claim "t1" "analysis" "needs_changes"
            (load "t1" (record n { tasks = []; parts = [] }))).parts
        ≡ 1)
review_replayed_example =
    review_replayed "t1" "analysis" "approved" "analysis" "needs_changes" waiting_task
      (fresh_run "thread" "session") pausing pausing_lookup refl refl pausing_parts named
      pausing_row
