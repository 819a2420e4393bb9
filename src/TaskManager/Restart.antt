-- ===== src/TaskManager/Restart.antt =====
-- What app/task_manager_store.py keeps of a task over a restart.
use mathlib.Core.Path.{subst}
use prd2tsd.Prelude.{
  String, Option, none, some, Bool, true, [], ◌++◌, ◌≡◌, ◌≢◌, refl, sym, ap, ◌∙◌, arith,
  Option-cases, inl, inr,
}
use prd2tsd.Prelude.Dict.{Dict, lookup, insert, lookup-insert_same}
use prd2tsd.TaskManager.{Task, Manager, resolve_review, resolve_stored, restored}
use prd2tsd.TaskManager.Store.{paused, Run, Database, load_task_run}
use prd2tsd.TaskManager.Coroutines.{execute-Effect, resume-Effect}
use prd2tsd.TaskManager.Reach.{Move, submit, review, execute, resume, restart, boot}
use prd2tsd.TaskManager.Mirror.{
  Kept, Mirrored, effect-Mirrored, insert-Mirrored, submit-Mirrored, found-Mirrored,
}
use prd2tsd.TaskManager.Review.{review_found, review_stored, review_exactly, subject_of}

-- What a server reaches while its database is up.
pub data Steady : Manager → Type 0 where
  booted :
      (rows : Dict Run) (has_bus : Bool) → Steady (boot (record { rows = rows; up = true }) has_bus)
  moved : (m n : Manager) → Steady m → Move m n → Steady n

load_up : (i : String) (s : Database) → s.up ≡ true → load_task_run i s ≡ lookup i s.rows
unfolding load_task_run
load_up i s up = ground (arith, up)

stored-Mirrored :
    (i stage decision : String) (o : Option Run) (m : Manager)
    → i ≢ ""
    → lookup i m.store.rows ≡ o
    → Mirrored m
    → Mirrored (resolve_stored i stage decision o m).0
unfolding resolve_stored
stored-Mirrored i stage decision none m named row mirror = mirror
stored-Mirrored i stage decision (some run) m named row mirror =
    found-Mirrored i stage decision (restored run)
      (record m { tasks = insert i (restored run) m.tasks })
      (lookup-insert_same i (restored run) m.tasks)
      (insert-Mirrored i (restored run) run m.store m named mirror.0 row (λ j other. refl) refl
        mirror)

review-Mirrored :
    (i stage decision : String) (m : Manager)
    → i ≢ ""
    → Mirrored m
    → Mirrored (resolve_review i stage decision m).0
review-Mirrored i stage decision m named mirror = elim (Option-cases (lookup i m.tasks)) [
  | inl missing ↦
      subst (λ p. Mirrored p.0) (sym (review_stored i stage decision m missing))
        (stored-Mirrored i stage decision (load_task_run i m.store) m named
          (sym (load_up i m.store mirror.0)) mirror)
  | inr (t, found) ↦
      subst (λ p. Mirrored p.0) (sym (review_found i stage decision t m found))
        (found-Mirrored i stage decision t m found mirror)
]

empty-Kept : (s : Database) (i : String) (t : Task) → lookup {V = Task} i [] ≡ some t → Kept i t s
unfolding lookup
empty-Kept s i t found = ground (arith, found)

Move-Mirrored : (m n : Manager) → Move m n → Mirrored m → Mirrored n
Move-Mirrored m n (submit i t s o m1 named new) mirror = submit-Mirrored i t s o m named mirror
Move-Mirrored m n (review i stage decision m1 named) mirror =
    review-Mirrored i stage decision m named mirror
Move-Mirrored m n (execute i steps ending m1 before after has) mirror =
    effect-Mirrored i (record m { jobs = before ++ after }) n
      (execute-Effect i steps ending (record m { jobs = before ++ after })) mirror
Move-Mirrored m n (resume i stage decision steps ending m1 before after has) mirror =
    effect-Mirrored i (record m { jobs = before ++ after }) n
      (resume-Effect i stage decision steps ending (record m { jobs = before ++ after })) mirror
Move-Mirrored m n (restart b m1) mirror = (mirror.0, empty-Kept m.store)

Steady-Mirrored : (m : Manager) → Steady m → Mirrored m
Steady-Mirrored m (booted rows b) = (refl, empty-Kept (record { rows = rows; up = true }))
Steady-Mirrored m (moved l m1 r move) = Move-Mirrored l m move (Steady-Mirrored l r)

-- The process is gone, and with it the tasks in memory and their coroutines.
abbrev pub restarted : Manager → Manager
restarted m = record m { tasks = []; jobs = []; events = [] }

empty_lookup : (i : String) → lookup {V = Task} i [] ≡ none
unfolding lookup
empty_lookup i = refl

-- While the database is up, and if nothing comes between the change of a task in memory and the write
-- of its row, a task that is paused takes its review after a restart as well.
pub paused_survives :
    (m : Manager) (i stage decision : String) (t : Task)
    → Steady m
    → lookup i m.tasks ≡ some t
    → t.fields.status ≡ paused
    → (resolve_review i stage decision (restarted m)).1 ≡ true
paused_survives m i stage decision t steady found stopped =
    let (named, r, row, alike) = (Steady-Mirrored m steady).1 i t found in
    (review_exactly i stage decision (restarted m)).1 (
      restored r,
      ap (λ o. subject_of o (load_task_run i m.store)) (empty_lookup i)
          ∙ ap (subject_of none) (load_up i m.store (Steady-Mirrored m steady).0 ∙ row),
      sym (ap (λ x. x.0) alike) ∙ stopped,
      refl,
    )
