-- ===== src/Failover/Healthy.antt =====
-- A call along a chain (`_failover_call` of app/llm_gateway/__init__.py) over the circuit breakers of
-- app/core/circuit_breaker.py.
use mathlib.Core.Path.{subst}
use prd2tsd.Prelude.{
  if_both, ℕ, String, Option, some, true, List, [], ◌∷◌, ◌++◌, ◌≡◌, ◌≢◌, refl, sym, ◌∙◌, arith, All,
  Option-cases, inl, inr,
}
use prd2tsd.Prelude.Dict.{lookup, lookup-insert_other}
use prd2tsd.Breaker.{CircuitBreaker, Outcome, returned, raised, circuit_open, call, closed, admit}
use prd2tsd.Breaker.Registry.{Registry, breaker_name, ensure, ensure_keeps, breaker_name-injective}
use prd2tsd.Failover.{FailoverTarget, Attempt, attempt, try_targets}

-- The breaker of a provider is closed, or not made yet.
abbrev pub Sound : String → Registry → Type 0
Sound provider r =
    (b : CircuitBreaker) → lookup (breaker_name provider) r ≡ some b → b.state ≡ closed

created_closed :
    (second : ℕ) (provider : String) (r : Registry)
    → Sound provider r
    → (ensure second provider r).0.state ≡ closed
unfolding ensure
created_closed second provider r sound = elim (Option-cases (lookup (breaker_name provider) r)) [
  | inl missing ↦ ground (arith, missing)
  | inr (b, found) ↦ ground (arith, found, sound b found)
]

module _ {A : Type 0} (second : ℕ) where
  -- A closed breaker passes a response on.
  closed_answers :
      (before after : ℕ) (response : A) (b : CircuitBreaker)
      → b.state ≡ closed
      → (call before after (some response) b).0 ≡ returned response
  unfolding call admit
  closed_answers before after response b shut = ground (arith, shut)

  -- An attempt leaves the breakers of the other providers alone.
  attempt_other :
      (t : FailoverTarget) (a : Attempt A) (provider : String) (r : Registry)
      → t.provider ≢ provider
      → lookup (breaker_name provider) (attempt second t a r).1 ≡ lookup (breaker_name provider) r
  unfolding attempt
  attempt_other t a provider r other =
      lookup-insert_other (breaker_name t.provider) (breaker_name provider) _ _
        (λ e. other (breaker_name-injective t.provider provider e))
      ∙ (ensure_keeps second t.provider provider r other).2

  -- A target with a sound breaker that is configured and responds is answered by.
  closed_target_lem :
      (t : FailoverTarget) (world : FailoverTarget → Attempt A) (response : A) (r : Registry)
      → Sound t.provider r
      → (world t).response ≡ some response
      → (attempt second t (world t) r).0 ≡ returned response
  unfolding attempt
  closed_target_lem t world response r sound responds =
      subst
        (λ o.
          (call (world t).before (world t).after o (ensure second t.provider r).0).0
          ≡ returned response)
        (sym responds)
        (closed_answers (world t).before (world t).after response (ensure second t.provider r).0
          (created_closed second t.provider r sound))

  abbrev Answered : Option (A × FailoverTarget) × Registry → Type 0
  Answered q = (p : A × FailoverTarget) × (q.0 ≡ some p)

  outcome-Answered :
      (o : Outcome A) (t : FailoverTarget) (r : Registry)
      (rest : Option (A × FailoverTarget) × Registry)
      → Answered rest
      → Answered (elim o as (λ x. Option (A × FailoverTarget) × Registry) [
        | returned response ↦ (some (response, t), r)
        | raised ↦ rest
        | circuit_open state ↦ rest
      ])
  outcome-Answered (returned response) t r rest h = ((response, t), refl)
  outcome-Answered raised t r rest h = h
  outcome-Answered (circuit_open state) t r rest h = h

  -- A call along a chain is answered if one of its targets is configured and responds, its breaker is
  -- closed or not made yet, and no target before it is of the same provider: no failure, missing
  -- configuration or open breaker of an earlier target keeps it from being tried.
  pub healthy_answers :
      (world : FailoverTarget → Attempt A) (before after : List FailoverTarget) (t : FailoverTarget)
      (response : A) (r : Registry)
      → All (λ u. u.provider ≢ t.provider) before
      → (world t).configured ≡ true
      → (world t).response ≡ some response
      → Sound t.provider r
      → (p : A × FailoverTarget) × ((try_targets second world (before ++ t ∷ after) r).0 ≡ some p)
  unfolding try_targets
  healthy_answers world [] after t response r others configured responds sound =
      let e : (attempt second t (world t) r).0 ≡ returned response =
        closed_target_lem t world response r sound responds in
      ((response, t), ground (arith, configured, e))
  healthy_answers world (u ∷ before) after t response r others configured responds sound =
      let r' : Registry = (attempt second u (world u) r).1 in
      let kept : Sound t.provider r' =
        λ b found. sound b (sym (attempt_other u (world u) t.provider r others.0) ∙ found) in
      if_both Answered (world u).configured _ _
        (outcome-Answered (attempt second u (world u) r).0 u r'
          (try_targets second world (before ++ t ∷ after) r')
          (healthy_answers world before after t response r' others.1 configured responds kept))
        (healthy_answers world before after t response r others.1 configured responds sound)
