-- ===== src/Breaker/Trials.antt =====
-- A burst of calls that arrive before any of them ends (app/core/circuit_breaker.py, `call`).
use Prim.Native.Nat.{min}
use prd2tsd.Prelude.{ℕ, ◌+◌, ◌-◌, ◌≤◌, ◌<◌, ◌≡◌, List, [], ◌∷◌, arith, length, All}
use prd2tsd.Breaker.{opened, half_open, CircuitBreaker, Admission, admitted, rejected, admit}

-- How many of the calls that arrive at these times enter.
entered : Admission → ℕ → ℕ
entered admitted n = n + 1
entered (rejected _) n = n

pub burst : List ℕ → CircuitBreaker → ℕ × CircuitBreaker
unfolding entered
burst [] b = (0, b)
burst (now ∷ rest) b =
    let (verdict, b') = admit now b in let (n, c) = burst rest b' in (entered verdict n, c)

burst-half_open :
    (ts : List ℕ) (b : CircuitBreaker)
    → b.state ≡ half_open
    → b.half_open_requests ≤ b.half_open_max_requests
    → (burst ts b).0 ≡ min (length ts) (b.half_open_max_requests - b.half_open_requests)
unfolding burst admit
burst-half_open [] b e h = omega arith
burst-half_open (t ∷ ts) b e h = ground (arith, burst-half_open ts (admit t b).1)

-- Of the calls that arrive at an open breaker after its recovery timeout, and before any of them
-- ends, exactly the first few enter, as many as the breaker allows half-open trials.
pub burst_limited :
    (ts : List ℕ) (b : CircuitBreaker)
    → b.state ≡ opened
    → All (λ t. b.last_failure_time + b.recovery_timeout < t) ts
    → (burst ts b).0 ≡ min (length ts) b.half_open_max_requests
unfolding burst admit
burst_limited [] b e h = omega arith
burst_limited (t ∷ ts) b e h = ground (arith, burst-half_open ts (admit t b).1)
