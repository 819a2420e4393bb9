-- ===== src/Evaluation/FanOut.antt =====
-- The fan-out to the evaluators (app/evaluation/agent_graph.py) and the merge of what they score
-- (app/evaluation/models.py).
use prd2tsd.Prelude.{
  ℕ, String, true, [], ◌∷◌, ◌≡◌, ap, refl, arith, All, ◌=?◌, inl, inr, Bool-cases,
}
use prd2tsd.Prelude.Dict.{Dict, lookup, insert, contains, lookup-insert}
use prd2tsd.Evaluation.{merge_scores, evaluator_dims, missing, or_scoring, fan_out_evaluators}

abbrev Known : String → Dict ℕ → Type 0
Known k d = contains k d ≡ true

merge_kept : (k : String) (a b : Dict ℕ) → Known k a → Known k (merge_scores a b)
unfolding merge_scores
merge_kept k a [] h = h
merge_kept k a ((j, s) ∷ b) h =
    merge_kept k (insert j s a) b (ground (arith, h, lookup-insert j k s a))

merge_added : (k : String) (a b : Dict ℕ) → Known k b → Known k (merge_scores a b)
unfolding merge_scores lookup
merge_added k a [] h = ground (arith, h)
merge_added k a ((j, s) ∷ b) h = elim (Bool-cases (j =? k)) [
  | inl same ↦ merge_kept k (insert j s a) b (ground (arith, same, lookup-insert j k s a))
  | inr differ ↦ merge_added k (insert j s a) b (ground (arith, h, differ))
]

missing_none :
    (d : Dict ℕ) (nodes : Dict String) → All (λ p. Known p.1 d) nodes → missing d nodes ≡ []
unfolding missing
missing_none d [] h = refl
missing_none d ((node, dim) ∷ nodes) h = ground (arith, missing_none d nodes h.1, h.0)

every_added :
    (a b : Dict ℕ) (nodes : Dict String)
    → All (λ p. Known p.1 b) nodes
    → All (λ p. Known p.1 (merge_scores a b)) nodes
every_added a b [] h = tt
every_added a b ((node, dim) ∷ nodes) h = (merge_added dim a b h.0, every_added a b nodes h.1)

-- Once every evaluator's score is merged, whatever was scored before, the fan-out goes to the scoring
-- alone.
pub fan_out_done :
    (existing scores : Dict ℕ)
    → All (λ p. contains p.1 scores ≡ true) evaluator_dims
    → fan_out_evaluators (merge_scores existing scores) ≡ "scoring" ∷ []
unfolding fan_out_evaluators
fan_out_done existing scores h = ap or_scoring (
    missing_none (merge_scores existing scores) evaluator_dims
      (every_added existing scores evaluator_dims h))
