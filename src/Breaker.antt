-- ===== src/Breaker.antt =====
-- app/core/circuit_breaker.py: the circuit breaker. A reading of `time.monotonic()` is a number of
-- clock ticks, and the timeout is counted in the same ticks. The lock makes each of the sections
-- below one step; the protected function runs between them.
pub mod Reach
pub mod Sequence
pub mod Trials
pub mod Registry
mod Tests
use prd2tsd.Prelude.{ℕ, ◌+◌, String, Option, none, some, Bool, true, ◌==◌, ltb, leb, if◌then◌else◌}

-- `CircuitState`
pub data CircuitState : Type 0 where
  closed opened half_open : CircuitState

-- `CircuitBreaker`, without its lock.
pub record CircuitBreaker : Type 0 where
  pub name : String
  pub failure_threshold : ℕ
  pub recovery_timeout : ℕ
  pub half_open_max_requests : ℕ
  pub state : CircuitState
  pub failure_count : ℕ
  pub last_failure_time : ℕ
  pub half_open_requests : ℕ

-- `__init__`
abbrev pub init : String → ℕ → ℕ → ℕ → CircuitBreaker
init name failure_threshold recovery_timeout half_open_max_requests = record {
  name = name;
  failure_threshold = failure_threshold;
  recovery_timeout = recovery_timeout;
  half_open_max_requests = half_open_max_requests;
  state = closed;
  failure_count = 0;
  last_failure_time = 0;
  half_open_requests = 0;
}

-- Whether `CircuitBreakerError` is raised, with the state that it carries.
pub data Admission : Type 0 where
  admitted : Admission
  rejected : CircuitState → Admission

-- The recovery window has passed: `time.monotonic() - last_failure_time > recovery_timeout`.
abbrev pub recovered : ℕ → CircuitBreaker → Bool
recovered now b = ltb (b.last_failure_time + b.recovery_timeout) now

-- The first test of the locked section; `none` is the raise.
pub open_gate : CircuitState → ℕ → CircuitBreaker → Option CircuitBreaker
open_gate opened now b =
    if recovered now b then some (record b { state = half_open; half_open_requests = 0 }) else none
open_gate _ now b = some b

-- The second test: a half-open breaker has a limited number of trials.
pub trial_gate : CircuitState → CircuitBreaker → Admission × CircuitBreaker
trial_gate half_open b =
    if leb b.half_open_max_requests b.half_open_requests
    then (rejected half_open, b)
    else (admitted, record b { half_open_requests = b.half_open_requests + 1 })
trial_gate _ b = (admitted, b)

-- The locked section at the start of `call`.
unfoldable pub admit : ℕ → CircuitBreaker → Admission × CircuitBreaker
unfolding open_gate trial_gate
admit now b = elim (open_gate b.state now b) [
  | none ↦ (rejected b.state, b)
  | some b' ↦ trial_gate b'.state b'
]

-- `_on_success`
unfoldable pub on_success : CircuitBreaker → CircuitBreaker
on_success b = record b { state = closed; failure_count = 0; half_open_requests = 0 }

-- `_on_failure`
unfoldable pub on_failure : ℕ → CircuitBreaker → CircuitBreaker
on_failure now b =
    let count = b.failure_count + 1 in
    record b {
      failure_count = count;
      last_failure_time = now;
      state = if leb b.failure_threshold count then opened else b.state;
    }

-- What `call` gives its caller.
pub data Outcome {ℓ} (A : Type ℓ) : Type ℓ where
  returned : A → Outcome A
  raised : Outcome A
  circuit_open : CircuitState → Outcome A

-- `call` from its start to its end with nothing in between. The result of the protected function
-- is `none` where it raises; `before` and `after` are the clock at both ends.
module _ {ℓ} {A : Type ℓ} where
  pub finish : ℕ → Option A → CircuitBreaker → Outcome A × CircuitBreaker
  finish after none b = (raised, on_failure after b)
  finish after (some a) b = (returned a, on_success b)

  unfoldable pub call : ℕ → ℕ → Option A → CircuitBreaker → Outcome A × CircuitBreaker
  unfolding finish admit
  call before after result b =
      let (verdict, b') = admit before b in
      elim verdict [ admitted ↦ finish after result b' | rejected state ↦ (circuit_open state, b') ]

-- `is_available`
abbrev available_in : CircuitState → ℕ → CircuitBreaker → Bool
available_in opened now b = recovered now b
available_in _ now b = true

unfoldable pub is_available : ℕ → CircuitBreaker → Bool
is_available now b = available_in b.state now b

-- `reset`
unfoldable pub reset : CircuitBreaker → CircuitBreaker
reset b = record b { state = closed; failure_count = 0; half_open_requests = 0 }
