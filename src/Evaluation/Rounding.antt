-- ===== src/Evaluation/Rounding.antt =====
-- `round` of a quotient, as app/evaluation uses it.
use native.Mathlib.Decide.{dec_lt}
use native.Mathlib.Nat.{le-div_iff_mul-le, div-le_of_le-mul}
use native.Mathlib.Omega.{div_any}
use prd2tsd.Prelude.{sym, ap, ◌∙◌, ℕ, ◌+◌, ◌*◌, ◌/◌, ◌%◌, ◌≤◌, ◌<◌, ◌≡◌, arith}
use prd2tsd.Evaluation.{round_div}

exact_rest : (a b hi : ℕ) → a ≤ hi * b → a / b ≡ hi → a % b ≡ 0
exact_rest a b hi high e =
    let whole : b * hi + a % b ≡ a = ap (λ q. b * q + a % b) (sym e) ∙ div_any a b in
    omega (arith, whole, high)

-- A quotient between two numbers is rounded to one between them.
pub round_div_between :
    (a b lo hi : ℕ) → 0 < b → lo * b ≤ a → a ≤ hi * b → (lo ≤ round_div a b) × (round_div a b ≤ hi)
unfolding round_div
round_div_between a b lo hi pos low high =
    let lowest : lo ≤ a / b = (le-div_iff_mul-le pos).1 low in
    let highest : a / b ≤ hi = div-le_of_le-mul b (omega (arith, high)) in
    elim (dec_lt (a / b) hi) [
      | yes below ↦ (ground (arith, lowest), ground (arith, below))
      | no top ↦
          let rest : a % b ≡ 0 = exact_rest a b hi high (omega (arith, top, highest)) in
          (ground (arith, lowest), ground (arith, rest, pos, highest))
    ]
