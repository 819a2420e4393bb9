-- ===== src/RateLimiter/Tests.antt =====
-- Runs of the rate limiter (app/llm_gateway/rate_limiter.py), and its theorems at concrete inputs.
use prd2tsd.Prelude.{◌≤◌, ◌<◌, ◌≡◌, refl, List, [], ◌∷◌, ◌++◌, arith, eq_iff}
use prd2tsd.Prelude.Int.{pos, negsuc}
use prd2tsd.Prelude.Dict.{lookup, insert}
use prd2tsd.RateLimiter.{
  RateLimiter, init, log_of, max_rpm, max_tpm, recent, total_tokens, check, commit, reserve,
  reconcile,
}
use prd2tsd.RateLimiter.Quota.{entry}
use prd2tsd.RateLimiter.Window.{Attempt, history, requests_in, tokens_in, window_limits}
use prd2tsd.RateLimiter.Reconcile.{reserve_then_reconcile}

-- Two requests and 100 tokens in 60 ticks.
abbrev limiter : RateLimiter
limiter = record {
  default_rpm = 2;
  default_tpm = 100;
  window = 60;
  request_log = [];
  custom_limits = [];
}

abbrev used : RateLimiter
used = record limiter { request_log = ("w", entry 1 10 "a" ∷ entry 30 20 "b" ∷ []) ∷ [] }

abbrev requests_only : RateLimiter
requests_only = record used { default_tpm = 0 }

-- Over the request limit: the oldest entry leaves the window 51 ticks later.
used-check : (check 10 "w" (pos 5) used).0.retry_after ≡ 51
unfolding check total_tokens lookup
used-check = refl

defaults : (init 60 100000 60 0 0).default_rpm ≡ 60
unfolding init
defaults = refl

abbrev calls : List Attempt
calls =
    record { now = 1; later = 1; fresh = "a"; tokens = pos 60 }
    ∷ record { now = 5; later = 6; fresh = "b"; tokens = pos 60 }
    ∷ record { now = 7; later = 7; fresh = "c"; tokens = pos 40 }
    ∷ record { now = 65; later = 65; fresh = "d"; tokens = negsuc 3 }
    ∷ []

-- The second call asks for too many tokens.
calls-history : history "w" calls limiter ≡ entry 1 60 "a" ∷ entry 7 40 "c" ∷ entry 65 0 "d" ∷ []
unfolding history reserve check commit total_tokens lookup insert
calls-history = refl

window_limits_example :
    (0 < max_rpm "w" limiter → requests_in 60 40 (history "w" calls limiter) ≤ max_rpm "w" limiter)
    × (0 < max_tpm "w" limiter → tokens_in 60 40 (history "w" calls limiter) ≤ max_tpm "w" limiter)
unfolding lookup
window_limits_example = window_limits "w" calls 0 40 limiter refl (omega arith)

reserve_then_reconcile_example :
    log_of "w" (reconcile 70 "x" "w" "c" (pos 9) (reserve 61 62 "c" "w" (pos 5) used).1)
    ≡ recent 60 62 (log_of "w" used) ++ entry 62 9 "c" ∷ []
unfolding reserve check commit total_tokens lookup insert
reserve_then_reconcile_example =
    reserve_then_reconcile 61 62 70 "c" "x" "w" (pos 5) (pos 9) used (omega arith) refl
      (ground (arith, eq_iff "b" "c"), tt)
