-- ===== src/Fusion/Scores.antt =====
-- What each document scores in app/knowledge_layer/retrieval/fusion.py.
use prd2tsd.Prelude.{
  ℕ, suc, ◌+◌, ◌≤◌, String, Option, none, some, Bool, true, false, List, [], ◌∷◌, ◌≡◌, refl, ap,
  ◌∙◌, arith, leb, ◌=?◌, if◌then◌else◌, Bool-cases, inl, inr, any, if_both, All, All-map, leb→le,
  eq_iff,
}
use prd2tsd.Prelude.Dict.{Dict, lookup, lookup-insert}
use prd2tsd.Fusion.{ScoredDoc, insert_best, best_first, started, add_doc, add_list, add_lists}

abbrev pub score_of : Option ScoredDoc → ℕ
score_of none = 0
score_of (some d) = d.score

abbrev pub is_known : Option ScoredDoc → Bool
is_known none = false
is_known (some d) = true

abbrev pub has_id : String → ScoredDoc → Bool
has_id id d = d.id =? id

module _ (k : ℕ) (reciprocal : ℕ → ℕ) where
  -- The sum of the reciprocals of the ranks that a document has in a list, and in all of them.
  pub list_gain : ℕ → String → List ScoredDoc → ℕ
  list_gain rank id [] = 0
  list_gain rank id (d ∷ docs) =
      (if d.id =? id then reciprocal (k + rank + 1) else 0) + list_gain (suc rank) id docs

  pub gain : String → List (List ScoredDoc) → ℕ
  gain id [] = 0
  gain id (docs ∷ lists) = list_gain 0 id docs + gain id lists

  score-started : (doc : ScoredDoc) (o : Option ScoredDoc) → (started doc o).score ≡ score_of o
  score-started doc none = refl
  score-started doc (some d) = refl

  score-add_doc :
      (rank : ℕ) (id : String) (doc : ScoredDoc) (m : Dict ScoredDoc)
      → score_of (lookup id (add_doc k reciprocal rank doc m))
        ≡ score_of (lookup id m) + (if doc.id =? id then reciprocal (k + rank + 1) else 0)
  score-add_doc rank id doc m =
      let d : ScoredDoc = started doc (lookup doc.id m) in
      let v : ScoredDoc = record d { score = d.score + reciprocal (k + rank + 1) } in
      elim (Bool-cases (doc.id =? id)) [
        | inl same ↦
            let here = ap (λ i. score_of (lookup i m)) ((eq_iff doc.id id).0 same) in
            rw (lookup-insert doc.id id v m)
              (rw same (omega (arith, here, score-started doc (lookup doc.id m))))
        | inr other ↦ rw (lookup-insert doc.id id v m) (rw other (omega arith))
      ]

  score-add_list :
      (rank : ℕ) (id : String) (docs : List ScoredDoc) (m : Dict ScoredDoc)
      → score_of (lookup id (add_list k reciprocal rank docs m))
        ≡ score_of (lookup id m) + list_gain rank id docs
  unfolding add_list list_gain
  score-add_list rank id [] m = omega arith
  score-add_list rank id (d ∷ docs) m = omega (
    arith,
    score-add_list (suc rank) id docs (add_doc k reciprocal rank d m),
    score-add_doc rank id d m,
  )

  pub score-add_lists :
      (id : String) (lists : List (List ScoredDoc)) (m : Dict ScoredDoc)
      → score_of (lookup id (add_lists k reciprocal lists m))
        ≡ score_of (lookup id m) + gain id lists
  unfolding add_lists gain
  score-add_lists id [] m = omega arith
  score-add_lists id (docs ∷ lists) m =
      omega (
        arith,
        score-add_lists id lists (add_list k reciprocal 0 docs m),
        score-add_list 0 id docs m,
      )

-- No document scores more than the one before it.
unfoldable pub IsRanked : List ScoredDoc → Type 0
IsRanked [] = Unit
IsRanked (d ∷ ds) = All (λ (e : ScoredDoc). e.score ≤ d.score) ds × IsRanked ds

insert_best-All :
    (n : ℕ) (d : ScoredDoc) (ds : List ScoredDoc)
    → d.score ≤ n
    → All (λ (e : ScoredDoc). e.score ≤ n) ds
    → All (λ (e : ScoredDoc). e.score ≤ n) (insert_best d ds)
unfolding insert_best
insert_best-All n d [] hd h = (hd, tt)
insert_best-All n d (e ∷ ds) hd (he, h) =
    if_both (All (λ (x : ScoredDoc). x.score ≤ n)) (leb e.score d.score) _ _ (hd, (he, h))
      (he, insert_best-All n d ds hd h)

insert_best-IsRanked :
    (d : ScoredDoc) (ds : List ScoredDoc) → IsRanked ds → IsRanked (insert_best d ds)
unfolding insert_best IsRanked
insert_best-IsRanked d [] h = (tt, tt)
insert_best-IsRanked d (e ∷ ds) (he, h) = elim (Bool-cases (leb e.score d.score)) [
  | inl lower ↦
      rw lower ((leb→le e.score d.score lower, All-map (λ x le. ground arith) ds he), (he, h))
  | inr higher ↦
      rw higher (insert_best-All e.score d ds (ground arith) he, insert_best-IsRanked d ds h)
]

pub best_first-IsRanked : (ds : List ScoredDoc) → IsRanked (best_first ds)
unfolding best_first IsRanked
best_first-IsRanked [] = tt
best_first-IsRanked (d ∷ ds) = insert_best-IsRanked d (best_first ds) (best_first-IsRanked ds)

insert_best-any :
    (p : ScoredDoc → Bool) (d : ScoredDoc) (ds : List ScoredDoc)
    → any p (insert_best d ds) ≡ any p (d ∷ ds)
unfolding insert_best
insert_best-any p d [] = refl
insert_best-any p d (e ∷ ds) = ground (arith, insert_best-any p d ds)

pub best_first-any : (p : ScoredDoc → Bool) (ds : List ScoredDoc) → any p (best_first ds) ≡ any p ds
unfolding best_first
best_first-any p [] = refl
best_first-any p (d ∷ ds) =
    insert_best-any p d (best_first ds)
    ∙ ap (λ rest. if p d then true else rest) (best_first-any p ds)
