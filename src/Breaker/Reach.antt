-- ===== src/Breaker/Reach.antt =====
-- The breaker under any interleaving of calls: app/core/circuit_breaker.py, where several
-- coroutines stand inside `call` at once.
use mathlib.Core.Path.{subst}
use prd2tsd.Prelude.{ℕ, ◌+◌, ◌≤◌, refl, ◌<◌, String, ◌≡◌, ap, ◌↔◌, true, arith}
use prd2tsd.Breaker.{
  CircuitState, closed, opened, half_open, CircuitBreaker, init, admitted, rejected, admit,
  on_success, on_failure, reset, is_available,
}

-- The breaker, the clock, and the number of calls whose protected function is running.
pub record System : Type 0 where
  pub breaker : CircuitBreaker
  pub now : ℕ
  pub in_flight : ℕ

-- A call is let through.
abbrev pub entered : System → CircuitBreaker → System
entered s b = record s { breaker = b; in_flight = s.in_flight + 1 }

-- A cancelled call leaves by `CancelledError`, which `except Exception` does not catch.
abbrev pub cancelled : System → ℕ → System
cancelled s k = record s { in_flight = k }

pub data CallStep : System → System → Type 0 where
  enter :
      (s : System) (b : CircuitBreaker)
      → admit s.now s.breaker ≡ (admitted, b)
      → CallStep s (entered s b)
  refuse :
      (s : System) (b : CircuitBreaker) (c : CircuitState)
      → admit s.now s.breaker ≡ (rejected c, b)
      → CallStep s (record s { breaker = b })
  succeed :
      (s : System) (k : ℕ)
      → s.in_flight ≡ k + 1
      → CallStep s (record s { breaker = on_success s.breaker; in_flight = k })
  fail :
      (s : System) (k : ℕ)
      → s.in_flight ≡ k + 1
      → CallStep s (record s { breaker = on_failure s.now s.breaker; in_flight = k })
  cancel : (s : System) (k : ℕ) → s.in_flight ≡ k + 1 → CallStep s (cancelled s k)
  wait : (s : System) (ticks : ℕ) → CallStep s (record s { now = s.now + ticks })

-- An operator may also reset the breaker by hand.
pub data Step : System → System → Type 0 where
  by_call : {s t : System} → CallStep s t → Step s t
  reset_by_hand : (s : System) → Step s (record s { breaker = reset s.breaker })

pub data Reach (R : System → System → Type 0) (s : System) : System → Type 0 where
  here : Reach R s s
  next : {t u : System} → Reach R s t → R t u → Reach R s u

-- What the state says of the counters.
abbrev StateLaw : CircuitState → CircuitBreaker → Type 0
StateLaw closed b = (b.failure_count < b.failure_threshold) × (b.half_open_requests ≡ 0)
StateLaw _ b = b.failure_threshold ≤ b.failure_count

pub record IsValid (b : CircuitBreaker) : Type 0 where
  pub some_threshold : 0 < b.failure_threshold
  pub trials : b.half_open_requests ≤ b.half_open_max_requests
  pub law : StateLaw b.state b

pub init-IsValid :
    (name : String) (threshold timeout trials : ℕ)
    → 0 < threshold
    → IsValid (init name threshold timeout trials)
init-IsValid name threshold timeout trials h = omega arith

module _ (now : ℕ) (b : CircuitBreaker) (v : IsValid b) where
  pub admit-IsValid : IsValid (admit now b).1
  unfolding admit
  admit-IsValid = ground arith

  pub on_failure-IsValid : IsValid (on_failure now b)
  unfolding on_failure
  on_failure-IsValid = ground arith

pub on_success-IsValid : (b : CircuitBreaker) → IsValid b → IsValid (on_success b)
unfolding on_success
on_success-IsValid b v = ground arith

pub reset-IsValid : (b : CircuitBreaker) → IsValid b → IsValid (reset b)
unfolding reset
reset-IsValid b v = ground arith

CallStep-IsValid : {s t : System} → CallStep s t → IsValid s.breaker → IsValid t.breaker
CallStep-IsValid (enter s b e) v = subst IsValid (ap (λ p. p.1) e) (admit-IsValid s.now s.breaker v)
CallStep-IsValid (refuse s b c e) v =
    subst IsValid (ap (λ p. p.1) e) (admit-IsValid s.now s.breaker v)
CallStep-IsValid (succeed s k e) v = on_success-IsValid s.breaker v
CallStep-IsValid (fail s k e) v = on_failure-IsValid s.now s.breaker v
CallStep-IsValid (cancel s k e) v = v
CallStep-IsValid (wait s ticks) v = v

pub Step-IsValid : {s t : System} → Step s t → IsValid s.breaker → IsValid t.breaker
Step-IsValid (by_call st) v = CallStep-IsValid st v
Step-IsValid (reset_by_hand s) v = reset-IsValid s.breaker v

Reach-IsValid : {s t : System} → Reach Step s t → IsValid s.breaker → IsValid t.breaker
Reach-IsValid here v = v
Reach-IsValid (next r st) v = Step-IsValid st (Reach-IsValid r v)

abbrev pub start : CircuitBreaker → System
start b = record { breaker = b; now = 0; in_flight = 0 }

IsValid-closed :
    (b : CircuitBreaker) → IsValid b → (b.state ≡ closed) ↔ (b.failure_count < b.failure_threshold)
IsValid-closed b v = ground arith

-- However calls, failures, cancellations and resets interleave, a breaker that was made with a
-- positive threshold is closed exactly while its failure count is below its threshold, and it
-- never has more half-open trials on its count than it allows.
pub closed_exactly :
    (name : String) (threshold timeout trials : ℕ) (t : System)
    → 0 < threshold
    → Reach Step (start (init name threshold timeout trials)) t
    → ((t.breaker.state ≡ closed) ↔ (t.breaker.failure_count < t.breaker.failure_threshold))
      × (t.breaker.half_open_requests ≤ t.breaker.half_open_max_requests)
closed_exactly name threshold timeout trials t h r =
    let v : IsValid t.breaker = Reach-IsValid r (init-IsValid name threshold timeout trials h) in
    (IsValid-closed t.breaker v, v.trials)

trial_failure-opens :
    (now : ℕ) (b : CircuitBreaker)
    → b.state ≡ half_open
    → IsValid b
    → ((on_failure now b).state ≡ opened) × ((on_failure now b).last_failure_time ≡ now)
unfolding on_failure
trial_failure-opens now b e v = ground arith

-- In every state that a breaker with a positive threshold reaches, one failure that is reported
-- while it is half open opens it again, at the time of that failure.
pub half_open_failure :
    (name : String) (threshold timeout trials now : ℕ) (t : System)
    → 0 < threshold
    → Reach Step (start (init name threshold timeout trials)) t
    → t.breaker.state ≡ half_open
    → ((on_failure now t.breaker).state ≡ opened)
      × ((on_failure now t.breaker).last_failure_time ≡ now)
half_open_failure name threshold timeout trials now t h r e =
    trial_failure-opens now t.breaker e
      (Reach-IsValid r (init-IsValid name threshold timeout trials h))

-- No call is running and the half-open trials are used up.
pub record IsStuck (s : System) : Type 0 where
  pub trial_state : s.breaker.state ≡ half_open
  pub used_up : s.breaker.half_open_max_requests ≤ s.breaker.half_open_requests
  pub idle : s.in_flight ≡ 0

refused_when_full :
    (now : ℕ) (b : CircuitBreaker)
    → b.state ≡ half_open
    → b.half_open_max_requests ≤ b.half_open_requests
    → admit now b ≡ (rejected half_open, b)
unfolding admit
refused_when_full now b e f = ground arith

available_half_open :
    (now : ℕ) (b : CircuitBreaker) → b.state ≡ half_open → is_available now b ≡ true
unfolding is_available
available_half_open now b e = ground arith

CallStep-IsStuck : {s t : System} → CallStep s t → IsStuck s → IsStuck t
CallStep-IsStuck (enter s b e) v = cc (e, refused_when_full s.now s.breaker v.trial_state v.used_up)
CallStep-IsStuck (refuse s b c e) v =
    let same : s.breaker ≡ b = cc (e, refused_when_full s.now s.breaker v.trial_state v.used_up) in
    subst (λ c. IsStuck (record s { breaker = c })) same v
CallStep-IsStuck (succeed s k e) v = absurd (omega (arith, v.idle))
CallStep-IsStuck (fail s k e) v = absurd (omega (arith, v.idle))
CallStep-IsStuck (cancel s k e) v = absurd (omega (arith, v.idle))
CallStep-IsStuck (wait s ticks) v = record {
  trial_state = v.trial_state;
  used_up = v.used_up;
  idle = v.idle;
}

Reach-IsStuck : {s t : System} → Reach CallStep s t → IsStuck s → IsStuck t
Reach-IsStuck here v = v
Reach-IsStuck (next r st) v = CallStep-IsStuck st (Reach-IsStuck r v)

last_trial :
    (now : ℕ) (b : CircuitBreaker)
    → b.state ≡ opened
    → b.half_open_max_requests ≡ 1
    → b.last_failure_time + b.recovery_timeout < now
    → ((admit now b).0 ≡ admitted)
      × ((admit now b).1.state ≡ half_open)
      × ((admit now b).1.half_open_max_requests ≤ (admit now b).1.half_open_requests)
unfolding admit
last_trial now b off one late = ground arith

-- A breaker that is open, with one half-open trial, no call running and its recovery time over, lets
-- the next call through as that trial. If the trial is cancelled, then whatever calls come and
-- however long it waits, without a reset by hand, the breaker refuses every call from then on, while
-- it reports itself available.
pub cancelled_trial_blocks :
    (s t : System) (now : ℕ)
    → s.breaker.state ≡ opened
    → s.breaker.half_open_max_requests ≡ 1
    → s.breaker.last_failure_time + s.breaker.recovery_timeout < s.now
    → s.in_flight ≡ 0
    → Reach CallStep (cancelled (entered s (admit s.now s.breaker).1) 0) t
    → ((admit s.now s.breaker).0 ≡ admitted)
      × (admit now t.breaker ≡ (rejected half_open, t.breaker))
      × (is_available now t.breaker ≡ true)
cancelled_trial_blocks s t now off one late idle r =
    let (through, on_trial, full) = last_trial s.now s.breaker off one late in
    let v : IsStuck (cancelled (entered s (admit s.now s.breaker).1) 0) = record {
      trial_state = on_trial;
      used_up = full;
      idle = refl;
    } in
    let w : IsStuck t = Reach-IsStuck r v in
    (
      through,
      refused_when_full now t.breaker w.trial_state w.used_up,
      available_half_open now t.breaker w.trial_state,
    )
