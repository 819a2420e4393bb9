-- ===== src/Breaker/Tests.antt =====
-- Runs of the circuit breaker (app/core/circuit_breaker.py), and its theorems at concrete inputs.
use prd2tsd.Prelude.{ℕ, ◌+◌, ◌≤◌, ◌<◌, ◌≡◌, refl, ◌↔◌, none, some, true, [], ◌∷◌, arith}
use prd2tsd.Breaker.{
  admitted, CircuitBreaker, closed, opened, half_open, init, rejected, admit, on_failure,
  on_success, call, is_available, returned, circuit_open,
}
use prd2tsd.Breaker.Reach.{
  System, Step, by_call, CallStep, enter, fail, cancel, wait, Reach, here, next, start, IsValid,
  entered, cancelled, closed_exactly, cancelled_trial_blocks,
}
use prd2tsd.Breaker.Registry.{Registry, breaker_name}

abbrev deepseek : CircuitBreaker
deepseek = init "provider:deepseek" 2 30 1

-- Two failures open it, a call inside the timeout is refused, the trial after it closes it.
abbrev two_failures : CircuitBreaker
two_failures = (call {A = ℕ} 5 9 none (call {A = ℕ} 1 4 none deepseek).1).1

two_failures-state : two_failures.state ≡ opened
unfolding call on_failure
two_failures-state = refl

refused_inside : call {A = ℕ} 39 40 (some 7) two_failures ≡ (circuit_open opened, two_failures)
unfolding call on_failure
refused_inside = refl

trial_after :
    call {A = ℕ} 40 41 (some 7) two_failures
    ≡ (returned 7, record deepseek { last_failure_time = 9 })
unfolding call on_failure on_success
trial_after = refl

abbrev fragile : CircuitBreaker
fragile = init "provider:openai" 1 30 1

abbrev broken : CircuitBreaker
broken = record fragile { state = opened; failure_count = 1 }

abbrev on_trial : CircuitBreaker
on_trial = record broken { state = half_open; half_open_requests = 1 }

abbrev trial_system : System
trial_system = record { breaker = on_trial; now = 31; in_flight = 1 }

first_call : CallStep (start fragile) (record (start fragile) { in_flight = 1 })
unfolding admit
first_call = enter (start fragile) fragile refl

first_failure :
    CallStep
      (record (start fragile) { in_flight = 1 })
      (record (start fragile) { breaker = broken })
unfolding on_failure
first_failure = fail (record (start fragile) { in_flight = 1 }) 0 refl

trial_call : CallStep (record { breaker = broken; now = 31; in_flight = 0 }) trial_system
unfolding admit
trial_call = enter (record { breaker = broken; now = 31; in_flight = 0 }) on_trial refl

to_trial : Reach Step (start fragile) trial_system
to_trial =
    next
      (next (next (next here (by_call first_call)) (by_call first_failure))
        (by_call (wait (record (start fragile) { breaker = broken }) 31)))
      (by_call trial_call)

closed_exactly_example :
    ((trial_system.breaker.state ≡ closed)
      ↔ (trial_system.breaker.failure_count < trial_system.breaker.failure_threshold))
    × (trial_system.breaker.half_open_requests ≤ trial_system.breaker.half_open_max_requests)
closed_exactly_example = closed_exactly "provider:openai" 1 30 1 trial_system (omega arith) to_trial

abbrev abandoned : System
abandoned = record { breaker = on_trial; now = 31; in_flight = 0 }

-- The cancelled trial leaves this state behind.
trial_cancelled : CallStep trial_system abandoned
trial_cancelled = cancel trial_system 0 refl

abbrev waiting : System
waiting = record { breaker = broken; now = 32; in_flight = 0 }

cancelled_trial_blocks_example :
    let left : System = cancelled (entered waiting (admit 32 broken).1) 0 in
    ((admit 32 broken).0 ≡ admitted)
    × (admit 1000000 left.breaker ≡ (rejected half_open, left.breaker))
    × (is_available 1000000 left.breaker ≡ true)
cancelled_trial_blocks_example =
    cancelled_trial_blocks waiting
      (record (cancelled (entered waiting (admit 32 broken).1) 0) { now = 32 + 5000 }) 1000000 refl
      refl (omega arith) refl
      (next here (wait (cancelled (entered waiting (admit 32 broken).1) 0) 5000))

broken-IsValid : IsValid broken
broken-IsValid = omega arith

abbrev providers : Registry
providers = (breaker_name "openai", broken) ∷ []
