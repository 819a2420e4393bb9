-- ===== src/TaskManager/Exclusive.antt =====
-- No task of app/task_manager.py is ever run by two coroutines, wherever the calls and the coroutines
-- are interrupted.
use prd2tsd.Prelude.{
  ℕ, suc, ◌≤◌, String, Option, none, some, Bool, true, false, List, [], ◌∷◌, ◌++◌, ◌≡◌, ◌≢◌, refl,
  ap, arith, ◌=?◌, if◌then◌else◌, eq_iff, inl, inr, Bool-cases,
}
use prd2tsd.Prelude.Dict.{lookup, lookup-insert}
use prd2tsd.TaskManager.{Task, Job, with_status, fresh_task, restored}
use prd2tsd.TaskManager.Store.{Run, Database, is_paused, paused, resuming, load_task_run}
use prd2tsd.TaskManager.Work.{updated}
use prd2tsd.TaskManager.Effects.{updated_other}
use prd2tsd.TaskManager.Segments.{
  Part, creating, claimed, starting, streaming, settled, Server, owner, submit, claim, claim_found,
  load, load_row, settle, Outcome, outcome_change, Step, submits, creates, loads, claims,
  claims_row, refuses, starts, settles, writes, restarts, switches, Steps, still, then_step,
  fresh_server,
}

-- A part that runs a task, or is about to.
abbrev pub drives : String → Part → Bool
drives i (creating k run) = k =? i
drives i (claimed k stage decision orchestrator) = k =? i
drives i (starting job) = owner job =? i
drives i (streaming job) = owner job =? i
drives i (settled k c) = false

-- How many parts run a task, or are about to.
abbrev pub drivers : String → List Part → ℕ
drivers i [] = 0
drivers i (p ∷ ps) = let rest = drivers i ps in if drives i p then suc rest else rest

-- How many a task may have.
abbrev room : Option Task → ℕ
room none = 0
room (some t) = if is_paused t.fields.status then 0 else 1

drivers-at :
    (i : String) (before after : List Part) (p : Part)
    → drivers i (before ++ p ∷ after)
      ≡ (if drives i p then suc (drivers i (before ++ after)) else drivers i (before ++ after))
drivers-at i [] after p = refl
drivers-at i (q ∷ before) after p = ground (arith, drivers-at i before after p)

room_small : (t : Option Task) → room t ≤ 1
room_small t = ground arith

abbrev Fits : Server → Type 0
Fits s = (i : String) → drivers i s.parts ≤ room (lookup i s.tasks)

-- A part goes on to a place where it runs the same task.
moves-Fits :
    (s : Server) (store : Database) (before after : List Part) (p q : Part)
    → s.parts ≡ before ++ p ∷ after
    → ((i : String) → drives i p ≡ drives i q)
    → Fits s
    → Fits (record s { store = store; parts = before ++ q ∷ after })
moves-Fits s store before after p q has same fits i = ground (
  arith,
  fits i,
  ap (drivers i) has,
  drivers-at i before after p,
  drivers-at i before after q,
  same i,
)

-- A part ends.
ends-Fits :
    (s : Server) (store : Database) (before after : List Part) (p : Part)
    → s.parts ≡ before ++ p ∷ after
    → Fits s
    → Fits (record s { store = store; parts = before ++ after })
ends-Fits s store before after p has fits i =
    ground (arith, fits i, ap (drivers i) has, drivers-at i before after p)

submit-Fits :
    (k thread_id session_id : String) (orchestrator : Bool) (s : Server)
    → lookup k s.tasks ≡ none
    → Fits s
    → Fits (submit k thread_id session_id orchestrator s)
unfolding submit
submit-Fits k thread_id session_id orchestrator s new fits i = ground (
  arith,
  new,
  fits i,
  fits k,
  (eq_iff k i).1,
  (eq_iff k i).0,
  lookup-insert k i (fresh_task thread_id session_id orchestrator) s.tasks,
)

claim_found-Fits :
    (k stage decision : String) (o : Option Task) (s : Server)
    → lookup k s.tasks ≡ o
    → Fits s
    → Fits (claim_found k stage decision o s)
unfolding claim_found
claim_found-Fits k stage decision none s found fits = fits
claim_found-Fits k stage decision (some t) s found fits = λ i. ground (
  arith,
  found,
  fits i,
  fits k,
  (eq_iff k i).1,
  (eq_iff k i).0,
  lookup-insert k i (with_status resuming t) s.tasks,
)

load_row-Fits :
    (k : String) (o : Option Task) (r : Option Run) (s : Server)
    → lookup k s.tasks ≡ o
    → Fits s
    → Fits (load_row k o r s)
unfolding load_row
load_row-Fits k none none s found fits = fits
load_row-Fits k (some t) r s found fits = fits
load_row-Fits k none (some run) s found fits = λ i.
    ground (
      arith,
      found,
      fits i,
      (eq_iff k i).1,
      (eq_iff k i).0,
      lookup-insert k i (restored run) s.tasks,
    )

-- A coroutine ends, whatever its outcome is: its task has no other.
settle-Fits :
    (k : String) (o : Outcome) (s : Server) (before after : List Part) (p : Part)
    → s.parts ≡ before ++ p ∷ after
    → ((i : String) → drives i p ≡ (k =? i))
    → Fits s
    → Fits (settle k o (record s { parts = before ++ after }))
unfolding settle
settle-Fits k o s before after p has its fits i = elim (Bool-cases (k =? i)) [
  | inl same ↦ ground (
    arith,
    fits i,
    ap (drivers i) has,
    drivers-at i before after p,
    its i,
    same,
    room_small (lookup i s.tasks),
  )
  | inr differ ↦
      let other : k ≢ i = λ e. ground (arith, differ, (eq_iff k i).1 e) in
      let kept : room (lookup i (updated k (outcome_change o) s.tasks)) ≡ room (lookup i s.tasks) =
        ap room (updated_other k i (outcome_change o) s.tasks other) in
      ground (arith, fits i, ap (drivers i) has, drivers-at i before after p, its i, differ, kept)
]

Step-Fits : (s t : Server) → Step s t → Fits s → Fits t
unfolding claim load
Step-Fits s t (submits i thread session o s1 new) fits = submit-Fits i thread session o s new fits
Step-Fits s t (creates i run s1 before after has) fits =
    moves-Fits s t.store before after (creating i run) (starting (Job.execution i)) has (λ j. refl)
      fits
Step-Fits s t (loads i s1) fits =
    load_row-Fits i (lookup i s.tasks) (load_task_run i s.store) s refl fits
Step-Fits s t (claims i stage decision s1) fits =
    claim_found-Fits i stage decision (lookup i s.tasks) s refl fits
Step-Fits s t (claims_row i stage decision s1 before after has) fits =
    moves-Fits s t.store before after (claimed i stage decision true)
      (starting (Job.resumption i stage decision)) has (λ j. refl) fits
Step-Fits s t (refuses i stage decision s1 before after has) fits =
    ends-Fits s t.store before after (claimed i stage decision false) has fits
Step-Fits s t (starts job s1 before after has) fits =
    moves-Fits s s.store before after (starting job) (streaming job) has (λ j. refl) fits
Step-Fits s t (settles job o s1 before after has) fits =
    settle-Fits (owner job) o s before after (streaming job) has (λ j. refl) fits
Step-Fits s t (writes i c s1 before after has) fits =
    ends-Fits s t.store before after (settled i c) has fits
Step-Fits s t (restarts s1) fits = λ i. omega arith
Step-Fits s t (switches up s1) fits = fits

Steps-Fits : (store : Database) (s : Server) → Steps (fresh_server store) s → Fits s
Steps-Fits store s still = λ i. omega arith
Steps-Fits store s (then_step t s1 steps step) = Step-Fits t s step (Steps-Fits store t steps)

-- From a server without tasks, whatever its database holds and wherever its calls and coroutines are
-- interrupted, with restarts and outages of the database: for a task, at most one coroutine streams,
-- is scheduled, or is about to be by a call that has changed the task, and none while the task is
-- paused in memory, though the one that paused it may still have the row to write.
pub one_driver :
    (store : Database) (s : Server) (i : String)
    → Steps (fresh_server store) s
    → (drivers i s.parts ≤ 1)
      × ((t : Task) → lookup i s.tasks ≡ some t → t.fields.status ≡ paused → drivers i s.parts ≡ 0)
one_driver store s i steps = (
  omega (arith, Steps-Fits store s steps i, room_small (lookup i s.tasks)),
  λ t found stopped. ground (arith, Steps-Fits store s steps i, found, stopped),
)
