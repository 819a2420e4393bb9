-- ===== src/Fusion.antt =====
-- `RRFFusion` of app/knowledge_layer/retrieval/fusion.py. The floats 1 / n and x / n are functions
-- into numbers of a small unit.
pub mod Scores
pub mod Union
mod Tests
use prd2tsd.Prelude.{
  ℕ, suc, ◌+◌, String, Option, none, some, Bool, List, [], ◌∷◌, map, leb, ◌==◌, if◌then◌else◌,
  length,
}
use prd2tsd.Prelude.Dict.{Dict, lookup, insert}

pub record ScoredDoc : Type 0 where
  pub id : String
  pub text : String
  pub score : ℕ
  pub source : String

abbrev pub started : ScoredDoc → Option ScoredDoc → ScoredDoc
started doc none = record doc { score = 0 }
started doc (some d) = d

-- `sum(1 for lst in ranked_lists if lst)`
abbrev pub total_lists : List (List ScoredDoc) → ℕ
total_lists [] = 0
total_lists ([] ∷ lists) = total_lists lists
total_lists ((d ∷ ds) ∷ lists) = suc (total_lists lists)

abbrev pub values : Dict ScoredDoc → List ScoredDoc
values m = map (λ (key, d). d) m

-- `sorted(…, reverse=True)` by score, which keeps the order of equal ones.
unfoldable pub insert_best : ScoredDoc → List ScoredDoc → List ScoredDoc
insert_best d [] = d ∷ []
insert_best d (e ∷ ds) =
    let rest = insert_best d ds in if leb e.score d.score then d ∷ e ∷ ds else e ∷ rest

unfoldable pub best_first : List ScoredDoc → List ScoredDoc
best_first [] = []
best_first (d ∷ ds) = insert_best d (best_first ds)

module _ (k : ℕ) (reciprocal : ℕ → ℕ) where
  -- One turn of the inner loop.
  abbrev pub add_doc : ℕ → ScoredDoc → Dict ScoredDoc → Dict ScoredDoc
  add_doc rank doc score_map =
      let d : ScoredDoc = started doc (lookup doc.id score_map) in
      insert doc.id (record d { score = d.score + reciprocal (k + rank + 1) }) score_map

  unfoldable pub add_list : ℕ → List ScoredDoc → Dict ScoredDoc → Dict ScoredDoc
  add_list rank [] score_map = score_map
  add_list rank (doc ∷ docs) score_map = add_list (suc rank) docs (add_doc rank doc score_map)

  unfoldable pub add_lists : List (List ScoredDoc) → Dict ScoredDoc → Dict ScoredDoc
  add_lists [] score_map = score_map
  add_lists (docs ∷ lists) score_map = add_lists lists (add_list 0 docs score_map)

-- Without lists there is nothing to divide.
abbrev pub normalized : (ℕ → ℕ → ℕ) → ℕ → ScoredDoc → ScoredDoc
normalized divide total d = if total == 0 then d else record d { score = divide d.score total }

-- `fuse`
unfoldable pub fuse : ℕ → (ℕ → ℕ) → (ℕ → ℕ → ℕ) → List (List ScoredDoc) → List ScoredDoc
fuse k reciprocal divide lists =
    best_first
      (map (normalized divide (total_lists lists)) (values (add_lists k reciprocal lists [])))
