-- ===== src/TaskManager/Mirror.antt =====
-- The rows of app/task_manager_store.py tell the same as the tasks of app/task_manager.py in memory,
-- while the database is up.
use mathlib.Core.Path.{subst}
use prd2tsd.Prelude.{
  String, none, some, Bool, true, false, ◌∷◌, ◌≡◌, ◌≢◌, refl, sym, ap, ◌∙◌, arith, ◌=?◌,
  if◌then◌else◌, eq_iff, Option-cases, inl, inr, Bool-cases, text_other,
}
use prd2tsd.Prelude.Dict.{lookup, insert, lookup-insert, lookup-insert_same}
use prd2tsd.TaskManager.{
  Task, resumption, created, Manager, emit, with_status, create_task, resolve_found, fresh_task,
}
use prd2tsd.TaskManager.Store.{
  resuming, is_paused, Run, Change, no_change, Database, apply_change, create_task_run,
  update_task_run,
}
use prd2tsd.TaskManager.Work.{updated}
use prd2tsd.TaskManager.Effects.{
  face, Effect, untouched, written, updated_known, updated-insert, updated_unknown, updated_other,
  emit-Alike,
}

-- The row of a task tells the same as the task.
abbrev pub Kept : String → Task → Database → Type 0
Kept i t s = (i ≢ "") × (r : Run) × (lookup i s.rows ≡ some r) × (face t.fields ≡ face r)

-- The database is up, and the row of every task in memory tells the same.
abbrev pub Mirrored : Manager → Type 0
Mirrored m =
    (m.store.up ≡ true) × ((i : String) (t : Task) → lookup i m.tasks ≡ some t → Kept i t m.store)

update_up : (i : String) (c : Change) (s : Database) → (update_task_run i c s).up ≡ s.up
unfolding update_task_run
update_up i c s = ground arith

updated_row :
    (i : String) (c : Change) (s : Database) (r : Run)
    → s.up ≡ true
    → i ≢ ""
    → lookup i s.rows ≡ some r
    → lookup i (update_task_run i c s).rows ≡ some (apply_change c r)
unfolding update_task_run
updated_row i c s r up named found =
    ground (arith, up, found, text_other i "" named, lookup-insert_same i (apply_change c r) s.rows)

other_row :
    (i j : String) (c : Change) (s : Database)
    → i ≢ j
    → lookup j (update_task_run i c s).rows ≡ lookup j s.rows
unfolding update_task_run
other_row i j c s other = elim (Option-cases (lookup i s.rows)) [
  | inl missing ↦ ground (arith, missing)
  | inr (r, found) ↦
      ground (arith, found, text_other i j other, lookup-insert i j (apply_change c r) s.rows)
]

-- An effect keeps the mirror, for its own task and for the others.
own-Mirrored :
    (k : String) (f : Task → Task) (c : Change) (m n : Manager) (t : Task)
    → n.tasks ≡ updated k f m.tasks
    → n.store ≡ update_task_run k c m.store
    → ((t : Task) (r : Run)
        → lookup k m.tasks ≡ some t
        → face t.fields ≡ face r
        → face (f t).fields ≡ face (apply_change c r))
    → Mirrored m
    → lookup k n.tasks ≡ some t
    → Kept k t n.store
own-Mirrored k f c m n t tasks store match mirror found = elim (Option-cases (lookup k m.tasks)) [
  | inl missing ↦
      let gone : lookup k n.tasks ≡ none =
        ap (lookup k) (tasks ∙ updated_unknown k f m.tasks missing) ∙ missing in
      ground (arith, gone, found)
  | inr (old, known) ↦
      let (named, r, row, alike) = mirror.1 k old known in
      let e : f old ≡ t =
        ground (arith, ap (lookup k) tasks ∙ updated_known k f m.tasks old known, found) in
      (
        named,
        apply_change c r,
        ap (λ s. lookup k s.rows) store ∙ updated_row k c m.store r mirror.0 named row,
        ap (λ x. face x.fields) (sym e) ∙ match old r known alike,
      )
]

pub effect-Mirrored : (k : String) (m n : Manager) → Effect k m n → Mirrored m → Mirrored n
effect-Mirrored k m n (untouched a) mirror = (
  ap (λ s. s.up) a.1 ∙ mirror.0,
  λ i t found. subst (Kept i t) (sym a.1) (mirror.1 i t (sym (ap (lookup i) a.0) ∙ found)),
)
effect-Mirrored k m n (written f c jobs tasks store match) mirror = (
  ap (λ s. s.up) store ∙ update_up k c m.store ∙ mirror.0,
  λ i t found. elim (Bool-cases (k =? i)) [
    | inl same ↦
        let e : k ≡ i = (eq_iff k i).0 same in
        subst (λ j. Kept j t n.store) e
          (own-Mirrored k f c m n t tasks store match mirror (ap (λ j. lookup j n.tasks) e ∙ found))
    | inr differ ↦
        let other : k ≢ i = λ e. ground (arith, differ, (eq_iff k i).1 e) in
        let old =
          mirror.1 i t (sym (ap (lookup i) tasks ∙ updated_other k i f m.tasks other) ∙ found) in
        (
          old.0,
          old.1,
          ap (λ s. lookup i s.rows) store ∙ other_row k i c m.store other ∙ old.2,
          old.3,
        )
  ],
)

-- A task put into memory beside a row that tells the same.
pub insert-Mirrored :
    (i : String) (t : Task) (run : Run) (s : Database) (m : Manager)
    → i ≢ ""
    → s.up ≡ true
    → lookup i s.rows ≡ some run
    → ((j : String) → i ≢ j → lookup j s.rows ≡ lookup j m.store.rows)
    → face t.fields ≡ face run
    → Mirrored m
    → Mirrored (record m { tasks = insert i t m.tasks; store = s })
insert-Mirrored i t run s m named up row others alike mirror = (
  up,
  λ j u found. elim (Bool-cases (i =? j)) [
    | inl same ↦
        let e : i ≡ j = (eq_iff i j).0 same in
        let here : u ≡ t = ground (arith, same, found, lookup-insert i j t m.tasks) in
        subst (λ k. Kept k u s) e (named, run, row, ap (λ x. face x.fields) here ∙ alike)
    | inr differ ↦
        let other : i ≢ j = λ e. ground (arith, differ, (eq_iff i j).1 e) in
        let (named', r, row', alike') =
          mirror.1 j u (ground (arith, differ, found, lookup-insert i j t m.tasks)) in
        (named', r, others j other ∙ row', alike')
  ],
)

pub submit-Mirrored :
    (i thread session : String) (orchestrator : Bool) (m : Manager)
    → i ≢ ""
    → Mirrored m
    → Mirrored (create_task i thread session orchestrator m)
unfolding create_task create_task_run
submit-Mirrored i thread session orchestrator m named mirror =
    let task : Task = fresh_task thread session orchestrator in
    let kept : Manager = record m {
      tasks = insert i task m.tasks;
      store = create_task_run i task.fields m.store;
    } in
    let stored : Mirrored kept =
      insert-Mirrored i task task.fields (create_task_run i task.fields m.store) m named
        (ground (arith, mirror.0))
        (ground (arith, mirror.0, lookup-insert_same i task.fields m.store.rows))
        (λ j other.
          ground
            (arith, mirror.0, text_other i j other, lookup-insert i j task.fields m.store.rows))
        refl mirror in
    effect-Mirrored i kept (emit i created kept) (untouched (emit-Alike i created kept)) stored

if-first :
    (P : Manager → Type 0) (b : Bool) (x y : Manager × Bool)
    → P x.0
    → P y.0
    → P (if b then x else y).0
if-first P true x y p q = p
if-first P false x y p q = q

pub found-Mirrored :
    (i stage decision : String) (t : Task) (m : Manager)
    → lookup i m.tasks ≡ some t
    → Mirrored m
    → Mirrored (resolve_found i stage decision t m).0
unfolding resolve_found apply_change
found-Mirrored i stage decision t m found mirror =
    let change : Change = record no_change { status = some resuming } in
    let claimed : Manager = record m {
      tasks = insert i (with_status resuming t) m.tasks;
      store = update_task_run i change m.store;
    } in
    let kept : Mirrored claimed =
      effect-Mirrored i m claimed
        (written (with_status resuming) change refl
          (updated-insert i (with_status resuming) m.tasks t found) refl
          (λ u r known e. ap (λ x. (resuming, x.1, x.2, x.3)) e))
        mirror in
    if-first Mirrored (is_paused t.fields.status)
      (if t.orchestrator
        then (record claimed { jobs = resumption i stage decision ∷ m.jobs }, true)
        else (claimed, false))
      (m, false)
      (if-first Mirrored t.orchestrator
        (record claimed { jobs = resumption i stage decision ∷ m.jobs }, true) (claimed, false) kept
        kept)
      mirror
