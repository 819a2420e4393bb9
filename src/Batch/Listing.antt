-- ===== src/Batch/Listing.antt =====
-- `list_tasks` of app/batch/tasks.py.
use prd2tsd.Prelude.{
  ℕ, zero, suc, ◌≤◌, String, Bool, true, false, List, [], ◌∷◌, ◌++◌, ◌≡◌, inl, inr, arith, leb,
  leb→le, Bool-cases, if_both, All-map, length, take, keep_if, All, All-append,
}
use prd2tsd.Batch.{
  Task, BatchTaskService, insert_newest, newest_first, in_workspace, listed_rows, not_in_memory,
  list_tasks,
}

-- No later task was made after an earlier one.
pub IsNewestFirst : List (String × Task) → Type 0
IsNewestFirst [] = Unit
IsNewestFirst (x ∷ xs) =
    All (λ (y : String × Task). y.1.created_at ≤ x.1.created_at) xs × IsNewestFirst xs

module _ (P : String × Task → Type 0) where
  insert_newest-All :
      (x : String × Task) (xs : List (String × Task)) → P x → All P xs → All P (insert_newest x xs)
  unfolding insert_newest
  insert_newest-All x [] hx h = (hx, tt)
  insert_newest-All x (y ∷ ys) hx h =
      if_both (All P) (leb y.1.created_at x.1.created_at) (x ∷ y ∷ ys) (y ∷ insert_newest x ys)
        (hx, h) (h.0, insert_newest-All x ys hx h.1)

  newest_first-All : (xs : List (String × Task)) → All P xs → All P (newest_first xs)
  unfolding newest_first
  newest_first-All [] h = tt
  newest_first-All (x ∷ xs) h = insert_newest-All x (newest_first xs) h.0 (newest_first-All xs h.1)

  keep_if-All :
      (p : String × Task → Bool) (xs : List (String × Task)) → All P xs → All P (keep_if p xs)
  keep_if-All p [] h = tt
  keep_if-All p (x ∷ xs) h =
      if_both (All P) (p x) (x ∷ keep_if p xs) (keep_if p xs) (h.0, keep_if-All p xs h.1)
        (keep_if-All p xs h.1)

  take-All : (n : ℕ) (xs : List (String × Task)) → All P xs → All P (take n xs)
  take-All zero xs h = tt
  take-All (suc n) [] h = tt
  take-All (suc n) (x ∷ xs) h = (h.0, take-All n xs h.1)

keep_if-Passes :
    (p : String × Task → Bool) (xs : List (String × Task)) → All (λ x. p x ≡ true) (keep_if p xs)
keep_if-Passes p [] = tt
keep_if-Passes p (x ∷ xs) = elim (Bool-cases (p x)) [
  | inl passes ↦ rw passes (passes, keep_if-Passes p xs)
  | inr fails ↦ rw fails (keep_if-Passes p xs)
]

insert_newest-IsNewestFirst :
    (x : String × Task) (xs : List (String × Task))
    → IsNewestFirst xs
    → IsNewestFirst (insert_newest x xs)
unfolding insert_newest IsNewestFirst
insert_newest-IsNewestFirst x [] h = (tt, tt)
insert_newest-IsNewestFirst x (y ∷ ys) h = elim (Bool-cases (leb y.1.created_at x.1.created_at)) [
  | inl older ↦
      rw older
        ((leb→le y.1.created_at x.1.created_at older, All-map (λ z le. ground arith) ys h.0), h)
  | inr newer ↦ rw newer (
    insert_newest-All (λ z. z.1.created_at ≤ y.1.created_at) x ys (ground arith) h.0,
    insert_newest-IsNewestFirst x ys h.1,
  )
]

newest_first-IsNewestFirst : (xs : List (String × Task)) → IsNewestFirst (newest_first xs)
unfolding newest_first IsNewestFirst
newest_first-IsNewestFirst [] = tt
newest_first-IsNewestFirst (x ∷ xs) =
    insert_newest-IsNewestFirst x (newest_first xs) (newest_first-IsNewestFirst xs)

take-IsNewestFirst :
    (n : ℕ) (xs : List (String × Task)) → IsNewestFirst xs → IsNewestFirst (take n xs)
unfolding IsNewestFirst
take-IsNewestFirst zero xs h = tt
take-IsNewestFirst (suc n) [] h = tt
take-IsNewestFirst (suc n) (x ∷ xs) h =
    (take-All (λ y. y.1.created_at ≤ x.1.created_at) n xs h.0, take-IsNewestFirst n xs h.1)

length-take_le : (n : ℕ) (xs : List (String × Task)) → length (take n xs) ≤ n
length-take_le zero xs = omega arith
length-take_le (suc n) [] = omega arith
length-take_le (suc n) (x ∷ xs) = omega (arith, length-take_le n xs)

listed_rows-InWorkspace :
    (up : Bool) (workspace_id : String) (limit : ℕ) (s : BatchTaskService)
    → All (λ x. in_workspace workspace_id x ≡ true) (listed_rows up workspace_id limit s)
listed_rows-InWorkspace false w limit s = tt
listed_rows-InWorkspace true w limit s =
    take-All _ limit _ (newest_first-All _ _ (keep_if-Passes (in_workspace w) _))

-- A listing names tasks of its workspace only, at most as many as the limit, the newest first, whether
-- the database answers or not.
pub list_tasks_lem :
    (up : Bool) (workspace_id : String) (limit : ℕ) (s : BatchTaskService)
    → let tasks = list_tasks up workspace_id limit s in
      (length tasks ≤ limit)
      × IsNewestFirst tasks
      × All (λ (x : String × Task). in_workspace workspace_id x ≡ true) tasks
unfolding list_tasks
list_tasks_lem up w limit s =
    let p : String × Task → Bool = in_workspace w in
    let tasks : List (String × Task) = keep_if p s.tasks in
    let rows : List (String × Task) = keep_if (not_in_memory tasks) (listed_rows up w limit s) in
    let P : String × Task → Type 0 = λ x. p x ≡ true in
    let own = All-append P tasks rows (keep_if-Passes p s.tasks) (
      keep_if-All P (not_in_memory tasks) (listed_rows up w limit s)
        (listed_rows-InWorkspace up w limit s)) in
    (
      length-take_le limit (newest_first (tasks ++ rows)),
      take-IsNewestFirst limit (newest_first (tasks ++ rows))
          (newest_first-IsNewestFirst (tasks ++ rows)),
      take-All P limit (newest_first (tasks ++ rows)) (newest_first-All P (tasks ++ rows) own),
    )
