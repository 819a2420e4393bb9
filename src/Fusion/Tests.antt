-- ===== src/Fusion/Tests.antt =====
-- Two searches that both find the same document.
use prd2tsd.Prelude.{ℕ, ◌/◌, List, [], ◌∷◌, ◌≡◌, any}
use prd2tsd.Prelude.Dict.{lookup}
use prd2tsd.Fusion.{ScoredDoc, add_lists, fuse}
use prd2tsd.Fusion.Scores.{score_of, has_id, gain, IsRanked}
use prd2tsd.Fusion.Union.{occurs, fuse_lem}

abbrev doc_a : ScoredDoc
doc_a = record { id = "a"; text = "one"; score = 9; source = "local" }

abbrev doc_b : ScoredDoc
doc_b = record { id = "b"; text = "two"; score = 5; source = "global" }

abbrev searches : List (List ScoredDoc)
searches = (doc_a ∷ doc_b ∷ []) ∷ (doc_b ∷ []) ∷ []

abbrev reciprocal : ℕ → ℕ
reciprocal n = 1000000 / n

abbrev divide : ℕ → ℕ → ℕ
divide x n = x / n

fuse_lem_example :
    IsRanked (fuse 60 reciprocal divide searches)
    × (any (has_id "b") (fuse 60 reciprocal divide searches) ≡ occurs "b" searches)
    × (score_of (lookup "b" (add_lists 60 reciprocal searches []))
        ≡ gain 60 reciprocal "b" searches)
fuse_lem_example = fuse_lem 60 reciprocal divide searches "b"
