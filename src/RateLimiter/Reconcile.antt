-- ===== src/RateLimiter/Reconcile.antt =====
-- Settling a reservation, and the waiting time of a refusal: app/llm_gateway/rate_limiter.py,
-- `reconcile` and `check`.
use mathlib.Core.Bool.{false≢true}
use mathlib.Core.Path.{subst}
use prd2tsd.Prelude.{
  ℕ, ◌+◌, ◌≤◌, ◌<◌, String, ◌≡◌, refl, ◌≢◌, ◌⊎◌, inl, inr, none, some, true, false, List, [], ◌∷◌,
  ◌++◌, arith, length, eq_iff, text_same, text_other, Bool-cases, All, ap, ◌∙◌, sym, ◌=?◌,
  length-keep_if,
}
use prd2tsd.Prelude.Int.{ℤ, pos, pos_part}
use prd2tsd.RateLimiter.{
  CheckResult, Entry, RateLimiter, log_of, max_rpm, max_tpm, recent, is_recent, check, check_rpm,
  check_tpm, wait_for, with_log, reserve, reconcile, replace_tokens, id_or,
}
use prd2tsd.RateLimiter.Quota.{
  check-with_log, check_exactly, entry, log_of-with_log_self, Reserves, reserve-Reserves,
}

-- How `reconcile` changes a log: the first entry of the reservation gets the tokens that were used,
-- or there is none and the use is added at the end.
abbrev pub Settles : String → ℕ → Entry → List Entry → List Entry → Type 0
Settles i actual extra log log' =
    ((xs : List Entry) × (e : Entry) × (ys : List Entry) × (log ≡ xs ++ e ∷ ys)
      × (e.reservation_id ≡ i)
      × All (λ x. x.reservation_id ≢ i) xs
      × (log' ≡ xs ++ record e { tokens = actual } ∷ ys))
    ⊎ (All (λ x. x.reservation_id ≢ i) log × (log' ≡ log ++ extra ∷ []))

-- Tokens of an entry replaced in the list, or all entries are of other reservations.
replace_tokens_cases :
    (i : String) (actual : ℕ) (log : List Entry)
    → ((xs : List Entry) × (e : Entry) × (ys : List Entry) × (log ≡ xs ++ e ∷ ys)
        × (e.reservation_id ≡ i)
        × All (λ x. x.reservation_id ≢ i) xs
        × (replace_tokens i actual log ≡ some (xs ++ record e { tokens = actual } ∷ ys)))
      ⊎ (All (λ x. x.reservation_id ≢ i) log × (replace_tokens i actual log ≡ none))
unfolding replace_tokens
replace_tokens_cases i actual [] = inr (tt, refl)
replace_tokens_cases i actual (e ∷ log) = elim (Bool-cases (e.reservation_id =? i)) [
  | inl same ↦ inl ([], e, log, refl, (eq_iff e.reservation_id i).0 same, tt, rw same)
  | inr other ↦ elim (replace_tokens_cases i actual log) [
    | inl (xs, d, ys, split, found, before, result) ↦ inl (
      e ∷ xs,
      d,
      ys,
      ap (λ l. e ∷ l) split,
      found,
      (λ q. false≢true (sym other ∙ (eq_iff e.reservation_id i).1 q), before),
      rw (other, result),
    )
    | inr (all, result) ↦
        inr
          ((λ q. false≢true (sym other ∙ (eq_iff e.reservation_id i).1 q), all), rw (other, result))
  ]
]

-- `reconcile` replaces the tokens of the first entry with the reservation's id and changes nothing
-- else of the log; if there is no such entry it adds one at the end, with the current time, the
-- tokens that were used, and a fresh id in the place of an empty one. A negative use counts as 0.
pub reconcile-Settles :
    (now : ℕ) (fresh w i : String) (tokens : ℤ) (r : RateLimiter)
    → Settles i
        (pos_part tokens)
        (entry now (pos_part tokens) (id_or i fresh))
        (log_of w r)
        (log_of w (reconcile now fresh w i tokens r))
unfolding reconcile
reconcile-Settles now fresh w i tokens r =
    elim (replace_tokens_cases i (pos_part tokens) (log_of w r)) [
      | inl (xs, e, ys, split, found, before, result) ↦
          inl (xs, e, ys, split, found, before, rw result (log_of-with_log_self w _ r))
      | inr (all, result) ↦ inr (all, rw result (log_of-with_log_self w _ r))
    ]

replace_tokens_last :
    (t n actual : ℕ) (i : String) (log : List Entry)
    → All (λ x. x.reservation_id ≢ i) log
    → replace_tokens i actual (log ++ entry t n i ∷ []) ≡ some (log ++ entry t actual i ∷ [])
unfolding replace_tokens
replace_tokens_last t n actual i [] a = rw text_same
replace_tokens_last t n actual i (e ∷ log) a =
    rw (text_other e.reservation_id i a.0, replace_tokens_last t n actual i log a.1)

reconcile_last :
    (now t n : ℕ) (fresh w i : String) (tokens : ℤ) (log : List Entry) (r : RateLimiter)
    → log_of w r ≡ log ++ entry t n i ∷ []
    → All (λ x. x.reservation_id ≢ i) log
    → log_of w (reconcile now fresh w i tokens r) ≡ log ++ entry t (pos_part tokens) i ∷ []
unfolding reconcile
reconcile_last now t n fresh w i tokens log r e a =
    rw (e, replace_tokens_last t n (pos_part tokens) i log a) (log_of-with_log_self w _ r)

-- A reservation that was allowed under an id which is new to the log, and is then reconciled, leaves
-- one entry with the time of the reservation and the tokens that were really used.
pub reserve_then_reconcile :
    (now later after : ℕ) (fresh other w : String) (estimated used : ℤ) (r : RateLimiter)
    → now ≤ later
    → (reserve now later fresh w estimated r).0.allowed ≡ true
    → All (λ x. x.reservation_id ≢ fresh) (recent r.window later (log_of w r))
    → log_of w (reconcile after other w fresh used (reserve now later fresh w estimated r).1)
      ≡ recent r.window later (log_of w r) ++ entry later (pos_part used) fresh ∷ []
reserve_then_reconcile now later after fresh other w estimated used r h a new =
    reconcile_last after later (pos_part estimated) other w fresh used
      (recent r.window later (log_of w r)) (reserve now later fresh w estimated r).1
      (subst
        (λ b.
          Reserves now later fresh w estimated r h b
            (log_of w (reserve now later fresh w estimated r).1))
        a (reserve-Reserves now later fresh w estimated r h)).1
      new

first_expires :
    (window now later rpm : ℕ) (log : List Entry)
    → 0 < rpm
    → length log ≤ rpm
    → now + wait_for window now log ≤ later
    → length (recent window later log) < rpm
first_expires window now later rpm [] p le h = omega (arith, p)
first_expires window now later rpm (e ∷ log) p le h =
    ground (arith, length-keep_if (is_recent window later) log)

refusal_wait_log :
    (rpm tpm window now : ℕ) (tokens : ℤ) (log : List Entry) (result : CheckResult)
    → result.allowed ≡ true
    → result.retry_after ≡ 0
    → tpm ≡ 0
    → let answer = check_tpm tpm window now tokens log (check_rpm rpm window now log result) in
      answer.allowed ≡ false → answer.retry_after ≡ wait_for window now log
unfolding check_rpm check_tpm
refusal_wait_log rpm tpm window now tokens log result a z off h = ground arith

refusal_wait :
    (now : ℕ) (w : String) (tokens : ℤ) (r : RateLimiter)
    → max_tpm w r ≡ 0
    → (check now w tokens r).0.allowed ≡ false
    → (check now w tokens r).0.retry_after
      ≡ wait_for r.window now (recent r.window now (log_of w r))
unfolding check
refusal_wait now w tokens r z h =
    refusal_wait_log (max_rpm w r) (max_tpm w r) r.window now tokens
      (recent r.window now (log_of w r)) _ refl refl z h

-- If the token limit is off and the log is within the request limit, a refused request that is made
-- again after the waiting time it was told, or later, is allowed.
pub retry_after_frees :
    (now later : ℕ) (w : String) (tokens again : ℕ) (r : RateLimiter)
    → 0 < max_rpm w r
    → max_tpm w r ≡ 0
    → length (recent r.window now (log_of w r)) ≤ max_rpm w r
    → (check now w (pos tokens) r).0.allowed ≡ false
    → now + (check now w (pos tokens) r).0.retry_after ≤ later
    → (check later w (pos again) (check now w (pos tokens) r).1).0.allowed ≡ true
retry_after_frees now later w tokens again r p z le h wait =
    rw (check-with_log now w (pos tokens) r) (
      (check_exactly later w again (with_log w (recent r.window now (log_of w r)) r)).1 (
        λ q. rw (log_of-with_log_self w (recent r.window now (log_of w r)) r) (
            first_expires r.window now later (max_rpm w r) (recent r.window now (log_of w r)) p le
              (rw (refusal_wait now w (pos tokens) r z h) at wait)),
        λ q. absurd (omega (arith, z, q)),
      ))
