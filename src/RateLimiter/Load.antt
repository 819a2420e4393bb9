-- ===== src/RateLimiter/Load.antt =====
-- The load of a window of time: app/llm_gateway/rate_limiter.py keeps what is recent, and this is
-- what the window ending at any moment sees of a log, by any weight.
use native.Mathlib.Decide.{dec_lt}
use prd2tsd.Prelude.{
  ℕ, ◌+◌, ◌≤◌, ◌<◌, ◌≡◌, refl, List, [], ◌∷◌, ◌++◌, arith, All, if◌then◌else◌, ltb, leb, ◌&&◌,
  length,
}
use prd2tsd.RateLimiter.{Entry, recent, total_tokens}

-- The weight of the entries that the window ending at `t` sees.
unfoldable pub load : (Entry → ℕ) → ℕ → ℕ → List Entry → ℕ
load weight window t [] = 0
load weight window t (e ∷ log) =
    (if leb e.timestamp t && ltb t (e.timestamp + window) then weight e else 0)
    + load weight window t log

pub weight_of : (Entry → ℕ) → List Entry → ℕ
weight_of weight [] = 0
weight_of weight (e ∷ log) = weight e + weight_of weight log

module _ (weight : Entry → ℕ) (window : ℕ) where
  pub load-le : (t : ℕ) (log : List Entry) → load weight window t log ≤ weight_of weight log
  unfolding load weight_of
  load-le t [] = omega arith
  load-le t (e ∷ log) = ground (arith, load-le t log)

  pub load-append :
      (t : ℕ) (xs ys : List Entry)
      → load weight window t (xs ++ ys) ≡ load weight window t xs + load weight window t ys
  unfolding load
  load-append t [] ys = omega arith
  load-append t (e ∷ xs) ys = omega (arith, load-append t xs ys)

  -- Dropping what is not recent at `now` changes no window that ends at `now` or later.
  pub load-recent :
      (t now : ℕ) (log : List Entry)
      → now ≤ t
      → load weight window t (recent window now log) ≡ load weight window t log
  unfolding load
  load-recent t now [] h = refl
  load-recent t now (e ∷ log) h = ground (arith, load-recent t now log h)

  pub load-recent_le :
      (t now : ℕ) (log : List Entry)
      → load weight window t (recent window now log) ≤ load weight window t log
  unfolding load
  load-recent_le t now [] = omega arith
  load-recent_le t now (e ∷ log) = ground (arith, load-recent_le t now log)

  pub All-later :
      (t from : ℕ) (h : List Entry)
      → t < from
      → All (λ e. from ≤ e.timestamp) h
      → load weight window t h ≡ 0
  unfolding load
  All-later t from [] lt a = refl
  All-later t from (e ∷ h) lt a = ground (arith, All-later t from h lt a.1)

  pub refused_load :
      (t now limit : ℕ) (log h : List Entry)
      → All (λ e. now ≤ e.timestamp) h
      → load weight window t (recent window now log) + load weight window t h ≤ limit
      → load weight window t log ≤ limit
      → load weight window t log + load weight window t h ≤ limit
  refused_load t now limit log h a step old = elim (dec_lt t now) [
    | yes lt ↦ omega (arith, All-later t now h lt a)
    | no ge ↦ omega (arith, load-recent t now log (omega arith))
  ]

  pub allowed_load :
      (t later limit : ℕ) (e : Entry) (log h : List Entry)
      → e.timestamp ≡ later
      → All (λ e. later ≤ e.timestamp) h
      → load weight window t (recent window later log ++ e ∷ []) + load weight window t h ≤ limit
      → load weight window t log ≤ limit
      → load weight window t log + load weight window t (e ∷ h) ≤ limit
  allowed_load t later limit e log h at a step old = elim (dec_lt t later) [
    | yes lt ↦ omega (arith, All-later t later (e ∷ h) lt (omega arith, a))
    | no ge ↦ omega (
      arith,
      load-recent t later log (omega arith),
      load-append t (recent window later log) (e ∷ []),
      load-append t (e ∷ []) h,
    )
  ]

pub load-nil :
    (weight : Entry → ℕ) (window t : ℕ) (log : List Entry) → log ≡ [] → load weight window t log ≡ 0
unfolding load
load-nil weight window t log e = rw e

pub weight_of-one : (log : List Entry) → weight_of (λ _. 1) log ≡ length log
unfolding weight_of
weight_of-one [] = refl
weight_of-one (e ∷ log) = omega (arith, weight_of-one log)

pub weight_of-tokens : (log : List Entry) → weight_of (λ e. e.tokens) log ≡ total_tokens log
unfolding weight_of total_tokens
weight_of-tokens [] = refl
weight_of-tokens (e ∷ log) = omega (arith, weight_of-tokens log)
