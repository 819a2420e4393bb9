-- ===== src/TaskManager/Review.antt =====
-- `resolve_review` of app/task_manager.py: which reviews are taken, and what is left for a second one.
use prd2tsd.Prelude.{
  String, Option, none, some, true, false, ◌≡◌, ◌≢◌, ◌↔◌, refl, sym, ap, ◌∙◌, arith, Option-cases,
  inl, inr, ◌⊎◌, Bool-cases,
}
use prd2tsd.Prelude.Dict.{lookup, insert, lookup-insert_same}
use prd2tsd.TaskManager.{
  Task, Manager, with_status, resolve_review, resolve_found, resolve_stored, resolve_with, restored,
}
use prd2tsd.TaskManager.Store.{paused, resuming, is_paused, Run, load_task_run}

pub review_found :
    (task_id stage decision : String) (t : Task) (m : Manager)
    → lookup task_id m.tasks ≡ some t
    → resolve_review task_id stage decision m ≡ resolve_found task_id stage decision t m
unfolding resolve_review resolve_with
review_found task_id stage decision t m found =
    ap (λ o. resolve_with task_id stage decision o m) found

pub review_stored :
    (task_id stage decision : String) (m : Manager)
    → lookup task_id m.tasks ≡ none
    → resolve_review task_id stage decision m
      ≡ resolve_stored task_id stage decision (load_task_run task_id m.store) m
unfolding resolve_review resolve_with
review_stored task_id stage decision m missing =
    ap (λ o. resolve_with task_id stage decision o m) missing

-- A task that is not paused takes no review.
pub idle_found :
    (task_id stage decision : String) (t : Task) (m : Manager)
    → t.fields.status ≢ paused
    → resolve_found task_id stage decision t m ≡ (m, false)
unfolding resolve_found
idle_found task_id stage decision t m idle = elim (Bool-cases (is_paused t.fields.status)) [
  | inl stopped ↦ ground (arith, idle, stopped)
  | inr moving ↦ ground (arith, moving)
]

-- A task that takes a review was paused and has a graph, is resuming in memory afterwards, and has
-- one coroutine more.
taken_found :
    (task_id stage decision : String) (t : Task) (m : Manager)
    → (resolve_found task_id stage decision t m).1 ≡ true
    → (t.fields.status ≡ paused)
      × (t.orchestrator ≡ true)
      × (lookup task_id (resolve_found task_id stage decision t m).0.tasks
          ≡ some (with_status resuming t))
unfolding resolve_found
taken_found task_id stage decision t m taken = (
  ground (arith, taken),
  ground (arith, taken),
  ground (arith, taken, lookup-insert_same task_id (with_status resuming t) m.tasks),
)

-- The task that a review is about: the one in memory, or else its row with the global graph.
abbrev pub subject_of : Option Task → Option Run → Option Task
subject_of (some t) stored = some t
subject_of none none = none
subject_of none (some run) = some (restored run)

abbrev pub subject : String → Manager → Option Task
subject task_id m = subject_of (lookup task_id m.tasks) (load_task_run task_id m.store)

-- A review without a subject is refused, and any other is decided by its subject.
stored_cases :
    (task_id stage decision : String) (o : Option Run) (m : Manager)
    → ((subject_of none o ≡ none) × (resolve_stored task_id stage decision o m ≡ (m, false)))
      ⊎ (t : Task) × (n : Manager) × (subject_of none o ≡ some t)
        × (resolve_stored task_id stage decision o m ≡ resolve_found task_id stage decision t n)
unfolding resolve_stored
stored_cases task_id stage decision none m = inl (refl, refl)
stored_cases task_id stage decision (some run) m =
    inr (restored run, record m { tasks = insert task_id (restored run) m.tasks }, refl, refl)

review_cases :
    (task_id stage decision : String) (m : Manager)
    → ((subject task_id m ≡ none) × (resolve_review task_id stage decision m ≡ (m, false)))
      ⊎ (t : Task) × (n : Manager) × (subject task_id m ≡ some t)
        × (resolve_review task_id stage decision m ≡ resolve_found task_id stage decision t n)
review_cases task_id stage decision m =
    let stored : Option Run = load_task_run task_id m.store in
    elim (Option-cases (lookup task_id m.tasks)) [
      | inr (t, found) ↦
          inr (
            t,
            m,
            ap (λ o. subject_of o stored) found,
            review_found task_id stage decision t m found,
          )
      | inl missing ↦
          let e : resolve_review task_id stage decision m
              ≡ resolve_stored task_id stage decision stored m =
            review_stored task_id stage decision m missing in
          let s : subject task_id m ≡ subject_of none stored =
            ap (λ o. subject_of o stored) missing in
          elim (stored_cases task_id stage decision stored m) [
            | inl (unknown, same) ↦ inl (s ∙ unknown, e ∙ same)
            | inr (t, n, known, same) ↦ inr (t, n, s ∙ known, e ∙ same)
          ]
    ]

-- What a review that is taken says of its task, before and after.
pub review_taken :
    (task_id stage decision : String) (m : Manager)
    → (resolve_review task_id stage decision m).1 ≡ true
    → (t : Task) × (subject task_id m ≡ some t)
      × (t.fields.status ≡ paused)
      × (t.orchestrator ≡ true)
      × (lookup task_id (resolve_review task_id stage decision m).0.tasks
          ≡ some (with_status resuming t))
review_taken task_id stage decision m taken = elim (review_cases task_id stage decision m) [
  | inl (unknown, same) ↦ ground (arith, ap (λ p. p.1) same, taken)
  | inr (t, n, known, same) ↦
      let told : (t.fields.status ≡ paused)
          × (t.orchestrator ≡ true)
          × (lookup task_id (resolve_found task_id stage decision t n).0.tasks
              ≡ some (with_status resuming t)) =
        taken_found task_id stage decision t n (sym (ap (λ p. p.1) same) ∙ taken) in
      (t, known, told.0, told.1, ap (λ p. lookup task_id p.0.tasks) same ∙ told.2)
]

-- A task that is paused and has a graph takes a review.
ready_found :
    (task_id stage decision : String) (t : Task) (m : Manager)
    → t.fields.status ≡ paused
    → t.orchestrator ≡ true
    → (resolve_found task_id stage decision t m).1 ≡ true
unfolding resolve_found
ready_found task_id stage decision t m stopped ready = ground (arith, stopped, ready)

-- A review is taken exactly if its task, in memory or else in the store, is paused and has a graph.
pub review_exactly :
    (task_id stage decision : String) (m : Manager)
    → ((resolve_review task_id stage decision m).1 ≡ true) ↔ (
        (t : Task) × (subject task_id m ≡ some t)
        × (t.fields.status ≡ paused)
        × (t.orchestrator ≡ true))
review_exactly task_id stage decision m = (
  λ taken.
      let (t, known, stopped, ready, after) = review_taken task_id stage decision m taken in
      (t, known, stopped, ready),
  λ h. elim (review_cases task_id stage decision m) [
    | inl (unknown, same) ↦ ground (arith, h.1, unknown)
    | inr (t, n, known, same) ↦
        let e : h.0 ≡ t = ground (arith, h.1, known) in
        ap (λ p. p.1) same
        ∙ ready_found task_id stage decision t n (ap (λ x. x.fields.status) (sym e) ∙ h.2)
            (ap (λ x. x.orchestrator) (sym e) ∙ h.3)
  ],
)

-- After a review that is taken, a second one of the same task is refused and changes nothing.
pub second_review_refused :
    (task_id stage decision stage' decision' : String) (m : Manager)
    → (resolve_review task_id stage decision m).1 ≡ true
    → resolve_review task_id stage' decision' (resolve_review task_id stage decision m).0
      ≡ ((resolve_review task_id stage decision m).0, false)
second_review_refused task_id stage decision stage' decision' m taken =
    let first = review_taken task_id stage decision m taken in
    let after : Manager = (resolve_review task_id stage decision m).0 in
    review_found task_id stage' decision' (with_status resuming first.0) after first.4
    ∙ idle_found task_id stage' decision' (with_status resuming first.0) after
        (λ e. ground (arith, e))
