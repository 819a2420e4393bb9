-- ===== src/TaskManager/Effects.antt =====
-- What the coroutines of app/task_manager.py do to the tasks, the rows and the other coroutines,
-- their events aside.
use prd2tsd.Prelude.{
  ℕ, String, none, some, Bool, true, false, List, [], ◌∷◌, ◌≡◌, refl, sym, ◌∙◌, ap, ltb,
  if◌then◌else◌, inl, inr, arith, text_same, text_other, Option-cases, ◌≢◌,
}
use prd2tsd.Prelude.Dict.{Dict, lookup, insert, lookup-insert}
use prd2tsd.TaskManager.{
  Task, Event, progress_made, Manager, StepState, get_or, emit, status_changed, error_raised, done,
}
use prd2tsd.TaskManager.Store.{
  Status, paused, complete, failed, Run, Change, update_task_run, apply_change,
}
use prd2tsd.TaskManager.Work.{
  with_result, result_change, updated, update_result, with_failure, mark_failed, with_pause,
  write_failure, write_result, pause_change, failure_change, pause_task, emit_steps,
}

-- The managers differ in their events only.
abbrev pub Alike : Manager → Manager → Type 0
Alike m n = (n.tasks ≡ m.tasks) × (n.store ≡ m.store) × (n.jobs ≡ m.jobs)

pub Alike-trans : (a b c : Manager) → Alike a b → Alike b c → Alike a c
Alike-trans a b c p q = (q.0 ∙ p.0, q.1 ∙ p.1, q.2 ∙ p.2)

pub emit-Alike : (i : String) (e : Event) (m : Manager) → Alike m (emit i e m)
unfolding emit
emit-Alike i e m = (ground arith, ground arith, ground arith)

if-Alike : (b : Bool) (m n : Manager) → Alike m n → Alike m (if b then n else m)
if-Alike true m n a = a
if-Alike false m n a = (refl, refl, refl)

pub emit_steps-Alike :
    (i : String) (steps : List StepState) (m : Manager) → Alike m (emit_steps i steps m)
unfolding emit_steps
emit_steps-Alike i [] m = (refl, refl, refl)
emit_steps-Alike i (s ∷ steps) m =
    let progress : ℕ = get_or s.progress 0 in
    let e : Event = progress_made progress (get_or s.stage "") in
    let told : Manager = (if ltb 0 progress then emit i e m else m) in
    Alike-trans m told (emit_steps i steps told)
      (if-Alike (ltb 0 progress) m (emit i e m) (emit-Alike i e m)) (emit_steps-Alike i steps told)

-- What a row and its task say alike.
abbrev pub face : Run → Status × ℕ × String × String
face run = (run.status, run.progress, run.stage, run.interrupt_stage)

-- A task and its row are changed alike.
abbrev pub Matching : (Task → Task) → Change → Dict Task → String → Type 0
Matching f c tasks i =
    (t : Task) (r : Run)
    → lookup i tasks ≡ some t
    → face t.fields ≡ face r
    → face (f t).fields ≡ face (apply_change c r)

pub data Effect (i : String) (m n : Manager) : Type 0 where
  untouched : Alike m n → Effect i m n
  written :
      (f : Task → Task) (c : Change)
      → n.jobs ≡ m.jobs
      → n.tasks ≡ updated i f m.tasks
      → n.store ≡ update_task_run i c m.store
      → Matching f c m.tasks i
      → Effect i m n

pub before : (i : String) (l m n : Manager) → Alike l m → Effect i m n → Effect i l n
before i l m n a (untouched b) = untouched (Alike-trans l m n a b)
before i l m n a (written f c jobs tasks store match) =
    written f c (jobs ∙ a.2) (tasks ∙ ap (updated i f) a.0) (store ∙ ap (update_task_run i c) a.1)
      (λ t r found. match t r (ap (lookup i) a.0 ∙ found))

pub after_emit : (i : String) (e : Event) (m n : Manager) → Effect i m n → Effect i m (emit i e n)
after_emit i e m n (untouched a) = untouched (Alike-trans m n (emit i e n) a (emit-Alike i e n))
after_emit i e m n (written f c jobs tasks store match) =
    let a : Alike n (emit i e n) = emit-Alike i e n in
    written f c (a.2 ∙ jobs) (a.0 ∙ tasks) (a.1 ∙ store) match

pub pause-Effect : (i stage : String) (m : Manager) → Effect i m (pause_task i stage m)
unfolding pause_task apply_change
pause-Effect i stage m =
    written (with_pause stage) (pause_change stage) refl refl refl
      (λ t r found e. ap (λ x. (paused, x.1, stage, stage)) e)

pub failed-Effect : (i error : String) (m : Manager) → Effect i m (mark_failed i error m)
unfolding mark_failed apply_change
failed-Effect i error m =
    let n : Manager = write_failure i error m in
    after_emit i (error_raised error) m (emit i (status_changed failed) n) (
      after_emit i (status_changed failed) m n (
        written (with_failure error) (failure_change error) refl refl refl
          (λ t r found e. ap (λ x. (failed, x.1, x.2, x.3)) e)))

pub updated_known :
    (i : String) (f : Task → Task) (tasks : Dict Task) (t : Task)
    → lookup i tasks ≡ some t
    → lookup i (updated i f tasks) ≡ some (f t)
unfolding updated
updated_known i f tasks t found = grind (arith, lookup-insert i i (f t) tasks, text_same i)

pub updated-insert :
    (i : String) (f : Task → Task) (tasks : Dict Task) (t : Task)
    → lookup i tasks ≡ some t
    → insert i (f t) tasks ≡ updated i f tasks
unfolding updated
updated-insert i f tasks t found = ground (arith, found)

pub updated_unknown :
    (i : String) (f : Task → Task) (tasks : Dict Task)
    → lookup i tasks ≡ none
    → updated i f tasks ≡ tasks
unfolding updated
updated_unknown i f tasks missing = ground arith

pub updated_other :
    (i j : String) (f : Task → Task) (tasks : Dict Task)
    → i ≢ j
    → lookup j (updated i f tasks) ≡ lookup j tasks
unfolding updated
updated_other i j f tasks other = elim (Option-cases (lookup i tasks)) [
  | inl missing ↦ ap (lookup j) (updated_unknown i f tasks missing)
  | inr (t, found) ↦ ground (arith, text_other i j other, lookup-insert i j (f t) tasks)
]

-- The row is given what the task in memory has become.
result-Matching :
    (i : String) (final : StepState) (status : Status) (tasks : Dict Task)
    → Matching
        (with_result final)
        (result_change status (lookup i (updated i (with_result final) tasks)))
        tasks
        i
unfolding apply_change result_change updated
result-Matching i final status tasks t r found e =
    ap (λ o. face (apply_change (result_change status o) r))
      (sym (updated_known i (with_result final) tasks t found))

pub result-Effect :
    (i : String) (final : StepState) (m : Manager) → Effect i m (update_result i final m)
unfolding update_result
result-Effect i final m =
    let status : Status = get_or final.status complete in
    let n : Manager = write_result i final m in
    let n1 : Manager = emit i (progress_made 100 "complete") n in
    after_emit i done m (emit i (status_changed status) n1) (
      after_emit i (status_changed status) m n1 (
        after_emit i (progress_made 100 "complete") m n (
          written (with_result final)
            (result_change status (lookup i (updated i (with_result final) m.tasks))) refl refl refl
            (result-Matching i final status m.tasks))))
