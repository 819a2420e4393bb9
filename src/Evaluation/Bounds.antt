-- ===== src/Evaluation/Bounds.antt =====
-- Where the scores of app/evaluation/scoring.py and score_calibrator.py lie.
use native.Mathlib.Nat.{mul-le-mul_left, mul-le-mul_right}
use mathlib.Core.Path.{subst}
use prd2tsd.Prelude.{
  ℕ, zero, suc, ◌+◌, ◌*◌, ◌≤◌, String, Option, none, some, Bool, true, false, List, [], ◌∷◌, ◌≡◌,
  refl, arith, length, take, All, if◌then◌else◌, Option-cases, inl, inr, ◌⊎◌,
}
use prd2tsd.Prelude.Dict.{Dict, lookup}
use prd2tsd.Evaluation.{
  round_div, dim_weights, required_dims, Score, Evaluator, Reply, load_recent_scores,
  save_evaluation_score, set_history, merged_score, merge, or_default, weighted_sum,
  weighted_overall, total, calibrated_overall, rounded, calibrate, score_reply, run, report_if,
}
use prd2tsd.Orchestrator.{EvaluationReport}
use prd2tsd.Evaluation.Rounding.{round_div_between}

-- The scores of the dimensions lie between two numbers of tenths.
abbrev pub Within : ℕ → ℕ → Dict ℕ → Type 0
Within lo hi d =
    (k : String) (score : ℕ) → lookup k d ≡ some score → (10 * lo ≤ score) × (score ≤ 10 * hi)

-- The overall scores lie between them.
abbrev pub Between : ℕ → ℕ → List Score → Type 0
Between lo hi = All (λ s. (lo ≤ s.overall) × (s.overall ≤ hi))

merged_score-between :
    (lo hi : ℕ) (c r : Option ℕ)
    → lo ≤ 50
    → 50 ≤ hi
    → ((s : ℕ) → c ≡ some s → (10 * lo ≤ s) × (s ≤ 10 * hi))
    → ((s : ℕ) → r ≡ some s → (10 * lo ≤ s) × (s ≤ 10 * hi))
    → (10 * lo ≤ merged_score c r) × (merged_score c r ≤ 10 * hi)
unfolding merged_score
merged_score-between lo hi (some s) r low high hc hr = hc s refl
merged_score-between lo hi none (some s) low high hc hr = hr s refl
merged_score-between lo hi none none low high hc hr = (omega (arith, low), omega (arith, high))

merge-Within :
    (lo hi : ℕ) (c r : Dict ℕ) (dims : List String)
    → lo ≤ 50
    → 50 ≤ hi
    → Within lo hi c
    → Within lo hi r
    → Within lo hi (merge c r dims)
unfolding merge lookup
merge-Within lo hi c r [] low high hc hr k s found = ground (arith, found)
merge-Within lo hi c r (d ∷ dims) low high hc hr k s found = ground (
  arith,
  found,
  merge-Within lo hi c r dims low high hc hr k s,
  merged_score-between lo hi (lookup d c) (lookup d r) low high (hc d) (hr d),
)

default-between :
    (lo hi : ℕ) (o : Option ℕ)
    → lo ≤ 50
    → 50 ≤ hi
    → ((s : ℕ) → o ≡ some s → (10 * lo ≤ s) × (s ≤ 10 * hi))
    → (10 * lo ≤ or_default o) × (or_default o ≤ 10 * hi)
default-between lo hi none low high h = (omega (arith, low), omega (arith, high))
default-between lo hi (some s) low high h = h s refl

total_weight : Dict ℕ → ℕ
total_weight [] = 0
total_weight ((k, w) ∷ d) = w + total_weight d

weighted-between :
    (lo hi : ℕ) (d weights : Dict ℕ)
    → lo ≤ 50
    → 50 ≤ hi
    → Within lo hi d
    → (10 * lo * total_weight weights ≤ weighted_sum d weights)
      × (weighted_sum d weights ≤ 10 * hi * total_weight weights)
unfolding weighted_sum total_weight
weighted-between lo hi d [] low high h = (omega arith, omega arith)
weighted-between lo hi d ((k, w) ∷ weights) low high h =
    let (low', high') = default-between lo hi (lookup k d) low high (h k) in
    let (least, most) = weighted-between lo hi d weights low high h in
    (omega (arith, mul-le-mul_right w low', least), omega (arith, mul-le-mul_right w high', most))

total-Between :
    (lo hi : ℕ) (history : List Score)
    → Between lo hi history
    → (length history * lo ≤ total history) × (total history ≤ length history * hi)
unfolding total
total-Between lo hi [] h = (omega arith, omega arith)
total-Between lo hi (s ∷ history) h =
    let (least, most) = total-Between lo hi history h.1 in
    (omega (arith, least, h.0), omega (arith, most, h.0))

weights_whole : total_weight dim_weights ≡ 100
unfolding total_weight
weights_whole = refl

overall-between :
    (lo hi : ℕ) (d : Dict ℕ)
    → lo ≤ 50
    → 50 ≤ hi
    → Within lo hi d
    → (lo ≤ weighted_overall d) × (weighted_overall d ≤ hi)
unfolding weighted_overall
overall-between lo hi d low high h =
    let (least, most) = weighted-between lo hi d dim_weights low high h in
    let whole : total_weight dim_weights ≡ 100 = weights_whole in
    round_div_between (weighted_sum d dim_weights) 1000 lo hi (omega arith)
      (omega (arith, subst (λ w. 10 * lo * w ≤ weighted_sum d dim_weights) whole least))
      (omega (arith, subst (λ w. weighted_sum d dim_weights ≤ 10 * hi * w) whole most))

-- A calibrated score lies where the score and the history lie.
pub calibrated-Between :
    (lo hi overall : ℕ) (history : List Score)
    → lo ≤ overall
    → overall ≤ hi
    → Between lo hi history
    → (lo ≤ calibrated_overall overall history) × (calibrated_overall overall history ≤ hi)
unfolding calibrated_overall
calibrated-Between lo hi overall [] low high h = (low, high)
calibrated-Between lo hi overall (s ∷ history) low high h =
    let (least, most) = total-Between lo hi (s ∷ history) h in
    let n : ℕ = length (s ∷ history) in
    round_div_between (n * overall + total (s ∷ history)) (2 * n) lo hi (omega arith)
      (omega (arith, mul-le-mul_left n low, least)) (omega (arith, mul-le-mul_left n high, most))

abbrev round_found : Option ℕ → Option ℕ
round_found none = none
round_found (some score) = some (round_div score 10)

lookup-rounded : (k : String) (d : Dict ℕ) → lookup k (rounded d) ≡ round_found (lookup k d)
unfolding rounded lookup
lookup-rounded k [] = refl
lookup-rounded k ((j, s) ∷ d) = ground (arith, lookup-rounded k d)

rounded-between :
    (lo hi : ℕ) (d : Dict ℕ)
    → Within lo hi d
    → (k : String) (score : ℕ) → lookup k (rounded d) ≡ some score
    → (lo ≤ score) × (score ≤ hi)
rounded-between lo hi d h k score found = elim (Option-cases (lookup k d)) [
  | inl missing ↦ ground (arith, lookup-rounded k d, found, missing)
  | inr (s, known) ↦
      let (low, high) = h k s known in
      let e : round_div s 10 ≡ score = ground (arith, lookup-rounded k d, found, known) in
      subst (λ x. (lo ≤ x) × (x ≤ hi)) e
        (round_div_between s 10 lo hi (omega arith) (omega (arith, low)) (omega (arith, high)))
]

if_All :
    (P : Score → Type 0) (b : Bool) (xs ys : List Score)
    → All P xs
    → All P ys
    → All P (if b then xs else ys)
if_All P true xs ys hx hy = hx
if_All P false xs ys hx hy = hy

take-Between : (lo hi n : ℕ) (rows : List Score) → Between lo hi rows → Between lo hi (take n rows)
take-Between lo hi zero rows h = tt
take-Between lo hi (suc n) [] h = tt
take-Between lo hi (suc n) (s ∷ rows) h = (h.0, take-Between lo hi n rows h.1)

load-Between :
    (lo hi : ℕ) (e : Evaluator) → Between lo hi e.rows → Between lo hi (load_recent_scores e)
unfolding load_recent_scores
load-Between lo hi e h =
    if_All (λ s. (lo ≤ s.overall) × (s.overall ≤ hi)) e.up (take 10 e.rows) []
      (take-Between lo hi 10 e.rows h) tt

if_rows :
    (P : List Score → Type 0) (b : Bool) (x y : Evaluator)
    → P x.rows
    → P y.rows
    → P (if b then x else y).rows
if_rows P true x y hx hy = hx
if_rows P false x y hx hy = hy

save-Between :
    (lo hi : ℕ) (score : Score) (e : Evaluator)
    → lo ≤ score.overall
    → score.overall ≤ hi
    → Between lo hi e.rows
    → Between lo hi (save_evaluation_score score e).rows
unfolding save_evaluation_score
save-Between lo hi score e low high rows =
    if_rows (Between lo hi) e.up (record e { rows = score ∷ e.rows }) e ((low, high), rows) rows

-- Where the scores of a report lie.
abbrev pub Bounded : ℕ → ℕ → EvaluationReport → Type 0
Bounded lo hi report =
    (lo ≤ report.overall_score)
    × (report.overall_score ≤ hi)
    × ((k : String) (score : ℕ)
        → lookup k report.dimension_scores ≡ some score
        → (lo ≤ score) × (score ≤ hi))

report_if-Bounded :
    (lo hi : ℕ) (b : Bool) (report : EvaluationReport)
    → ((b ≡ true) ⊎ (lo ≡ 0))
    → Bounded lo hi report
    → Bounded lo hi (report_if b report)
unfolding report_if lookup
report_if-Bounded lo hi true report either bounded = bounded
report_if-Bounded lo hi false report (inl e) bounded = ground (arith, e)
report_if-Bounded lo hi false report (inr least) bounded =
    (omega (arith, least), omega arith, λ k score found. ground (arith, found))

-- What a reply of the model scores: the overall score and every dimension of the report lie between
-- the same two numbers as the scores that are collected, replied and remembered, which have the
-- missing score of 5 between them, and so do the rows that are remembered afterwards. If the report
-- does not take the reply's other values and is the empty one, the lower number is to be 0.
pub run-Between :
    (lo hi : ℕ) (collected : Dict ℕ) (reply : Reply) (e : Evaluator)
    → lo ≤ 50
    → 50 ≤ hi
    → Within lo hi collected
    → Within lo hi reply.dimensions
    → Between lo hi e.rows
    → ((reply.is_valid ≡ true) ⊎ (lo ≡ 0))
    → let (report, e') = run collected (some reply) e in
      (lo ≤ report.overall_score)
      × (report.overall_score ≤ hi)
      × ((k : String) (score : ℕ)
          → lookup k report.dimension_scores ≡ some score
          → (lo ≤ score) × (score ≤ hi))
      × Between lo hi e'.rows
unfolding run score_reply set_history calibrate save_evaluation_score
run-Between lo hi collected reply e low high hc hr rows either =
    let merged : Dict ℕ = merge collected reply.dimensions required_dims in
    let within : Within lo hi merged =
      merge-Within lo hi collected reply.dimensions required_dims low high hc hr in
    let (least, most) = overall-between lo hi merged low high within in
    let history : List Score = load_recent_scores e in
    let (low', high') =
      calibrated-Between lo hi (weighted_overall merged) history least most
        (load-Between lo hi e rows) in
    let report : EvaluationReport = record {
      overall_score = calibrated_overall (weighted_overall merged) history;
      dimension_scores = rounded merged;
      critical_issues = reply.issues;
    } in
    let (least', most', dimensions') =
      report_if-Bounded lo hi reply.is_valid report either
        (low', high', rounded-between lo hi merged within) in
    (
      least',
      most',
      dimensions',
      save-Between lo hi
          (record {
            overall = calibrated_overall (weighted_overall merged) history;
            dimensions = merged;
          })
          (calibrate (weighted_overall merged) merged (set_history history e)).1 low' high' rows,
    )
