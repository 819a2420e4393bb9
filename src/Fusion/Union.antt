-- ===== src/Fusion/Union.antt =====
-- Which documents app/knowledge_layer/retrieval/fusion.py answers with, and in which order.
use prd2tsd.Prelude.{
  ℕ, suc, String, Option, some, Bool, true, false, ◌||◌, List, [], ◌∷◌, ◌≡◌, refl, sym, ◌∙◌, arith,
  ◌=?◌, if◌then◌else◌, Bool-cases, inl, inr, any, All, map, eq_iff,
}
use prd2tsd.Prelude.Dict.{Dict, lookup, insert, lookup-insert}
use prd2tsd.Fusion.{
  ScoredDoc, started, total_lists, values, normalized, add_doc, add_list, add_lists, fuse,
}
use prd2tsd.Fusion.Scores.{
  score_of, is_known, has_id, gain, score-add_lists, IsRanked, best_first-IsRanked, best_first-any,
}

-- Every document stands under its own id.
abbrev Keyed : Dict ScoredDoc → Type 0
Keyed m = All (λ (e : String × ScoredDoc). e.1.id ≡ e.0) m

insert-Keyed :
    (key : String) (d : ScoredDoc) (m : Dict ScoredDoc)
    → d.id ≡ key
    → Keyed m
    → Keyed (insert key d m)
unfolding insert
insert-Keyed key d [] own h = (own, tt)
insert-Keyed key d ((j, e) ∷ m) own (he, h) = elim (Bool-cases (j =? key)) [
  | inl same ↦ rw same (own ∙ sym ((eq_iff j key).0 same), h)
  | inr other ↦ rw other (he, insert-Keyed key d m own h)
]

started-own :
    (doc : ScoredDoc) (m : Dict ScoredDoc) → Keyed m → (started doc (lookup doc.id m)).id ≡ doc.id
unfolding lookup
started-own doc [] h = refl
started-own doc ((j, e) ∷ m) (he, h) = elim (Bool-cases (j =? doc.id)) [
  | inl same ↦ rw same (he ∙ (eq_iff j doc.id).0 same)
  | inr other ↦ rw other (started-own doc m h)
]

any-Keyed :
    (id : String) (m : Dict ScoredDoc)
    → Keyed m
    → any (has_id id) (values m) ≡ is_known (lookup id m)
unfolding lookup
any-Keyed id [] h = refl
any-Keyed id ((j, e) ∷ m) (he, h) = elim (Bool-cases (j =? id)) [
  | inl same ↦ rw same (rw he (rw same refl))
  | inr other ↦ rw other (rw he (rw other (any-Keyed id m h)))
]

any-normalized :
    (divide : ℕ → ℕ → ℕ) (total : ℕ) (id : String) (ds : List ScoredDoc)
    → any (has_id id) (map (normalized divide total) ds) ≡ any (has_id id) ds
any-normalized divide total id [] = refl
any-normalized divide total id (d ∷ ds) = ground (arith, any-normalized divide total id ds)

-- Whether a document is in one of the lists.
abbrev pub occurs : String → List (List ScoredDoc) → Bool
occurs id [] = false
occurs id (docs ∷ lists) = any (has_id id) docs || occurs id lists

known_if :
    (b : Bool) (d : ScoredDoc) (o : Option ScoredDoc)
    → is_known (if b then some d else o) ≡ (b || is_known o)
known_if true d o = refl
known_if false d o = refl

module _ (k : ℕ) (reciprocal : ℕ → ℕ) where
  add_list-Keyed :
      (rank : ℕ) (docs : List ScoredDoc) (m : Dict ScoredDoc)
      → Keyed m
      → Keyed (add_list k reciprocal rank docs m)
  unfolding add_list
  add_list-Keyed rank [] m h = h
  add_list-Keyed rank (d ∷ docs) m h =
      add_list-Keyed (suc rank) docs (add_doc k reciprocal rank d m)
        (insert-Keyed d.id _ m (started-own d m h) h)

  add_lists-Keyed :
      (lists : List (List ScoredDoc)) (m : Dict ScoredDoc)
      → Keyed m
      → Keyed (add_lists k reciprocal lists m)
  unfolding add_lists
  add_lists-Keyed [] m h = h
  add_lists-Keyed (docs ∷ lists) m h =
      add_lists-Keyed lists (add_list k reciprocal 0 docs m) (add_list-Keyed 0 docs m h)

  known-add_doc :
      (rank : ℕ) (id : String) (d : ScoredDoc) (m : Dict ScoredDoc)
      → is_known (lookup id (add_doc k reciprocal rank d m))
        ≡ (d.id =? id || is_known (lookup id m))
  known-add_doc rank id d m = rw (lookup-insert d.id id _ m) (known_if (d.id =? id) _ (lookup id m))

  known-add_list :
      (rank : ℕ) (id : String) (docs : List ScoredDoc) (m : Dict ScoredDoc)
      → is_known (lookup id (add_list k reciprocal rank docs m))
        ≡ (any (has_id id) docs || is_known (lookup id m))
  unfolding add_list
  known-add_list rank id [] m = refl
  known-add_list rank id (d ∷ docs) m = ground (
    arith,
    known-add_list (suc rank) id docs (add_doc k reciprocal rank d m),
    known-add_doc rank id d m,
  )

  known-add_lists :
      (id : String) (lists : List (List ScoredDoc)) (m : Dict ScoredDoc)
      → is_known (lookup id (add_lists k reciprocal lists m))
        ≡ (occurs id lists || is_known (lookup id m))
  unfolding add_lists
  known-add_lists id [] m = refl
  known-add_lists id (docs ∷ lists) m =
      ground (
        arith,
        known-add_lists id lists (add_list k reciprocal 0 docs m),
        known-add_list 0 id docs m,
      )

  -- The documents of a fusion are those that at least one list has, none scores more than the one
  -- before it, and what a document collects before the scores are divided is the sum of the
  -- reciprocals of its ranks in all the lists.
  pub fuse_lem :
      (divide : ℕ → ℕ → ℕ) (lists : List (List ScoredDoc)) (id : String)
      → IsRanked (fuse k reciprocal divide lists)
        × (any (has_id id) (fuse k reciprocal divide lists) ≡ occurs id lists)
        × (score_of (lookup id (add_lists k reciprocal lists [])) ≡ gain k reciprocal id lists)
  unfolding fuse lookup
  fuse_lem divide lists id =
      let m : Dict ScoredDoc = add_lists k reciprocal lists [] in
      let docs : List ScoredDoc = map (normalized divide (total_lists lists)) (values m) in
      (
        best_first-IsRanked docs,
        best_first-any (has_id id) docs
            ∙ any-normalized divide (total_lists lists) id (values m)
            ∙ any-Keyed id m (add_lists-Keyed lists [] tt)
            ∙ known-add_lists id lists []
            ∙ or_nothing (occurs id lists),
        omega (arith, score-add_lists k reciprocal id lists []),
      )
    where
      or_nothing : (b : Bool) → (b || false) ≡ b
      or_nothing true = refl
      or_nothing false = refl
