-- ===== src/Breaker/Sequence.antt =====
-- Calls one after another: how a breaker opens after its threshold of failures, what it refuses,
-- and how a trial call decides its recovery (app/core/circuit_breaker.py, `call`).
use prd2tsd.Prelude.{
  ℕ, ◌+◌, ◌≤◌, ◌<◌, ◌≡◌, refl, ◌↔◌, Option, none, some, true, List, [], ◌∷◌, arith, length,
}
use prd2tsd.Breaker.{
  closed, opened, half_open, CircuitBreaker, admitted, admit, on_success, on_failure, Outcome,
  returned, raised, circuit_open, call, is_available,
}
use prd2tsd.Breaker.Reach.{IsValid}

-- A call enters exactly when the breaker reports itself available and, if it is half open or about
-- to be, has a trial left.
pub admit_exactly :
    (now : ℕ) (b : CircuitBreaker)
    → ((admit now b).0 ≡ admitted) ↔ (
        (is_available now b ≡ true)
        × (b.state ≡ half_open → b.half_open_requests < b.half_open_max_requests)
        × (b.state ≡ opened → 0 < b.half_open_max_requests))
unfolding admit is_available
admit_exactly now b = ground arith

module _ (A : Type 0) where
  -- Calls whose protected function raises, each with the clock at its start and at its end.
  pub failures : List (ℕ × ℕ) → CircuitBreaker → CircuitBreaker
  failures [] b = b
  failures ((before, after) ∷ rest) b = failures rest (call {A = A} before after none b).1

  failing_call :
      (before after : ℕ) (b : CircuitBreaker)
      → b.state ≡ closed
      → (call {A = A} before after none b) ≡ (raised, on_failure after b)
  unfolding call
  failing_call before after b e = ground arith

  failures-closed :
      (ts : List (ℕ × ℕ)) (b : CircuitBreaker)
      → b.state ≡ closed
      → b.failure_count + length ts < b.failure_threshold
      → ((failures ts b).state ≡ closed)
        × ((failures ts b).failure_count ≡ b.failure_count + length ts)
        × ((failures ts b).failure_threshold ≡ b.failure_threshold)
        × ((failures ts b).recovery_timeout ≡ b.recovery_timeout)
  unfolding failures on_failure
  failures-closed [] b e h = (e, omega arith, refl, refl)
  failures-closed ((before, after) ∷ ts) b e h =
      ground (arith, failing_call before after b e, failures-closed ts (on_failure after b))

  refused_early :
      (now later : ℕ) (result : Option A) (b : CircuitBreaker)
      → b.state ≡ opened
      → now ≤ b.last_failure_time + b.recovery_timeout
      → call now later result b ≡ (circuit_open opened, b)
  unfolding call
  refused_early now later result b e h = ground arith

  last_failure :
      (before after : ℕ) (b : CircuitBreaker)
      → b.state ≡ closed
      → b.failure_threshold ≤ b.failure_count + 1
      → let d = (call {A = A} before after none b).1 in
        (d.state ≡ opened)
        × (d.last_failure_time ≡ after)
        × (d.recovery_timeout ≡ b.recovery_timeout)
  unfolding on_failure
  last_failure before after b e h = ground (arith, failing_call before after b e)

  -- A closed breaker with no failure on its count stays closed through fewer failing calls than
  -- its threshold. The failure that reaches the threshold opens it at that moment, and every call
  -- that starts within the recovery timeout from there is refused and changes nothing.
  pub opens_at_threshold :
      (ts : List (ℕ × ℕ)) (before after : ℕ) (b : CircuitBreaker)
      → b.state ≡ closed
      → b.failure_count ≡ 0
      → length ts + 1 ≡ b.failure_threshold
      → let c = failures ts b in
        let d = (call {A = A} before after none c).1 in
        (c.state ≡ closed)
        × (d.state ≡ opened)
        × ((now later : ℕ) (result : Option A)
            → now ≤ after + b.recovery_timeout
            → call now later result d ≡ (circuit_open opened, d))
  opens_at_threshold ts before after b e z n =
      let c = failures ts b in
      let d = (call {A = A} before after none c).1 in
      let quiet = failures-closed ts b e (omega arith) in
      let final = last_failure before after c quiet.0 (omega (arith, quiet)) in
      (
        quiet.0,
        final.0,
        λ now later result h. refused_early now later result d final.0 (omega (arith, final)),
      )

  -- What a trial call leaves behind, by the result of its function.
  abbrev pub Decides : Option A → ℕ → Outcome A × CircuitBreaker → Type 0
  Decides (some a) later (outcome, c) =
      (outcome ≡ returned a) × (c.state ≡ closed) × (c.failure_count ≡ 0)
  Decides none later (outcome, c) =
      (outcome ≡ raised) × (c.state ≡ opened) × (c.last_failure_time ≡ later)

  -- A call on an open breaker after the recovery timeout is a trial: if it returns, the breaker is
  -- closed with no failure on its count; if it raises, the breaker is open from that moment on.
  pub trial-Decides :
      (now later : ℕ) (result : Option A) (b : CircuitBreaker)
      → IsValid b
      → b.state ≡ opened
      → b.last_failure_time + b.recovery_timeout < now
      → 0 < b.half_open_max_requests
      → Decides result later (call now later result b)
  unfolding call on_success on_failure
  trial-Decides now later (some a) b v e h p = ground arith
  trial-Decides now later none b v e h p = ground arith
