-- ===== src/RateLimiter/Quota.antt =====
-- What one reservation does to the log of its workspace and to those of the others:
-- app/llm_gateway/rate_limiter.py, `check`, `reserve` and `set_limit`.
use mathlib.Core.Bool.{false≢true}
use prd2tsd.Prelude.{
  ℕ, ◌+◌, ◌≤◌, ◌<◌, String, ◌≡◌, refl, ◌≢◌, true, false, Bool, List, [], ◌∷◌, ◌++◌, arith, length,
  length-keep_if, eq_iff, text_same, keep_if, Bool-cases, inl, inr, sym, ap, ◌∙◌, ◌↔◌,
}
use prd2tsd.Prelude.Int.{ℤ, pos, pos_part}
use prd2tsd.Prelude.Dict.{lookup-insert}
use prd2tsd.RateLimiter.{
  Entry, RateLimiter, CheckResult, log_of, with_log, max_rpm, max_tpm, recent, total_tokens, check,
  commit, is_recent, over_limit, reserve, check_rpm, check_tpm,
}

pub log_of-with_log_self :
    (w : String) (log : List Entry) (r : RateLimiter) → log_of w (with_log w log r) ≡ log
log_of-with_log_self w log r = rw lookup-insert (rw text_same)

pub log_of-with_log_ne :
    (v w : String) (log : List Entry) (r : RateLimiter)
    → v ≢ w
    → log_of v (with_log w log r) ≡ log_of v r
log_of-with_log_ne v w log r ne = rw lookup-insert (ground (arith, eq_iff w v))

pub total_tokens-append :
    (xs ys : List Entry) → total_tokens (xs ++ ys) ≡ total_tokens xs + total_tokens ys
unfolding total_tokens
total_tokens-append [] ys = omega arith
total_tokens-append (e ∷ xs) ys = omega (arith, total_tokens-append xs ys)

-- An entry that is recent later is recent now.
pub recent-recent :
    (window now later : ℕ) (log : List Entry)
    → now ≤ later
    → recent window later (recent window now log) ≡ recent window later log
recent-recent window now later [] h = refl
recent-recent window now later (e ∷ log) h = ground (arith, recent-recent window now later log h)

abbrev pub entry : ℕ → ℕ → String → Entry
entry t n i = record { timestamp = t; tokens = n; reservation_id = i }

pub check-with_log :
    (now : ℕ) (w : String) (tokens : ℤ) (r : RateLimiter)
    → (check now w tokens r).1 ≡ with_log w (recent r.window now (log_of w r)) r
unfolding check
check-with_log now w tokens r = refl

-- The tests of `check` and `commit`, as a statement.
abbrev pub Fits : ℕ → ℕ → ℕ → List Entry → Type 0
Fits rpm tpm tokens log = (0 < rpm → length log < rpm) × (0 < tpm → total_tokens log + tokens ≤ tpm)

over_limit-Fits :
    (rpm tpm tokens : ℕ) (log : List Entry)
    → over_limit rpm tpm tokens log ≡ false
    → Fits rpm tpm tokens log
over_limit-Fits rpm tpm tokens log h = ground arith

Fits-over_limit :
    (rpm tpm tokens : ℕ) (log : List Entry)
    → Fits rpm tpm tokens log
    → over_limit rpm tpm tokens log ≡ false
Fits-over_limit rpm tpm tokens log f = ground arith

module _ (now : ℕ) (fresh w : String) (estimated : ℕ) (result : CheckResult) (r : RateLimiter) where
  pub commit-allowed :
      (commit now fresh w estimated result r).0.allowed ≡ true
      → Fits (max_rpm w r) (max_tpm w r) estimated (recent r.window now (log_of w r))
        × (log_of w (commit now fresh w estimated result r).1
            ≡ recent r.window now (log_of w r) ++ entry now estimated fresh ∷ [])
  unfolding commit
  commit-allowed h =
      elim (Bool-cases
        (over_limit (max_rpm w r) (max_tpm w r) estimated (recent r.window now (log_of w r)))) [
          | inl full ↦ absurd (false≢true (rw full at h))
          | inr fits ↦ (over_limit-Fits _ _ _ _ fits, rw fits (log_of-with_log_self w _ r))
        ]

  pub commit-Fits :
      Fits (max_rpm w r) (max_tpm w r) estimated (recent r.window now (log_of w r))
      → ((commit now fresh w estimated result r).0.allowed ≡ result.allowed)
        × (log_of w (commit now fresh w estimated result r).1
            ≡ recent r.window now (log_of w r) ++ entry now estimated fresh ∷ [])
  unfolding commit
  commit-Fits f =
      rw (Fits-over_limit (max_rpm w r) (max_tpm w r) estimated _ f)
        (refl, log_of-with_log_self w _ r)

  pub commit-refused :
      (commit now fresh w estimated result r).0.allowed ≡ false
      → result.allowed ≡ true
      → ¬ Fits (max_rpm w r) (max_tpm w r) estimated (recent r.window now (log_of w r))
        × (log_of w (commit now fresh w estimated result r).1 ≡ recent r.window now (log_of w r))
  unfolding commit
  commit-refused h a =
      elim (Bool-cases
        (over_limit (max_rpm w r) (max_tpm w r) estimated (recent r.window now (log_of w r)))) [
          | inl full ↦ (
            λ f. false≢true (sym (Fits-over_limit _ _ _ _ f) ∙ full),
            rw full (log_of-with_log_self w _ r),
          )
          | inr fits ↦ absurd (false≢true (sym (rw fits at h) ∙ a))
        ]

checks_exactly :
    (rpm tpm window now tokens : ℕ) (log : List Entry) (result : CheckResult)
    → result.allowed ≡ true
    → ((check_tpm tpm window now (pos tokens) log (check_rpm rpm window now log result)).allowed
        ≡ true)
      ↔ Fits rpm tpm tokens log
unfolding check_rpm check_tpm
checks_exactly rpm tpm window now tokens log result e = ground arith

-- `check` allows a request of this many tokens exactly when the entries of the window leave room for
-- it under both limits, where a limit of 0 leaves room for everything.
pub check_exactly :
    (now : ℕ) (w : String) (tokens : ℕ) (r : RateLimiter)
    → ((check now w (pos tokens) r).0.allowed ≡ true)
      ↔ Fits (max_rpm w r) (max_tpm w r) tokens (recent r.window now (log_of w r))
unfolding check
check_exactly now w tokens r =
    checks_exactly (max_rpm w r) (max_tpm w r) r.window now tokens
      (recent r.window now (log_of w r)) _ refl

total_tokens-keep_if :
    (p : Entry → Bool) (log : List Entry) → total_tokens (keep_if p log) ≤ total_tokens log
unfolding total_tokens
total_tokens-keep_if p [] = omega arith
total_tokens-keep_if p (e ∷ log) = ground (arith, total_tokens-keep_if p log)

Fits-recent :
    (rpm tpm tokens window later : ℕ) (log : List Entry)
    → Fits rpm tpm tokens log
    → Fits rpm tpm tokens (recent window later log)
Fits-recent rpm tpm tokens window later log f = (
  λ p. omega (arith, f.0 p, length-keep_if (is_recent window later) log),
  λ p. omega (arith, f.1 p, total_tokens-keep_if (is_recent window later) log),
)

pub Fits-later :
    (rpm tpm tokens window now later : ℕ) (log : List Entry)
    → now ≤ later
    → Fits rpm tpm tokens (recent window now log)
    → Fits rpm tpm tokens (recent window later log)
Fits-later rpm tpm tokens window now later log h f =
    rw (← recent-recent window now later log h)
      (Fits-recent rpm tpm tokens window later (recent window now log) f)

module _ (now later : ℕ) (fresh w : String) (tokens : ℤ) (r : RateLimiter) (h : now ≤ later) where
  -- What `reserve` leaves in the log of its workspace, by its answer.
  abbrev pub Reserves : Bool → List Entry → Type 0
  Reserves true log =
      Fits (max_rpm w r) (max_tpm w r) (pos_part tokens) (recent r.window now (log_of w r))
      × (log ≡ recent r.window later (log_of w r) ++ entry later (pos_part tokens) fresh ∷ [])
  Reserves false log =
      ¬ Fits (max_rpm w r) (max_tpm w r) (pos_part tokens) (recent r.window now (log_of w r))
      × (log ≡ recent r.window now (log_of w r))

  commit_after_check :
      (result : CheckResult)
      → result.allowed ≡ true
      → Fits (max_rpm w r) (max_tpm w r) (pos_part tokens) (recent r.window now (log_of w r))
      → let (result', r') =
          commit later fresh w
            (pos_part tokens)
            result
            (with_log w (recent r.window now (log_of w r)) r) in
        (result'.allowed ≡ true)
        × (log_of w r'
            ≡ recent r.window later (log_of w r) ++ entry later (pos_part tokens) fresh ∷ [])
  commit_after_check result a f =
      let log = recent r.window now (log_of w r) in
      let later_log = Fits-recent _ _ _ r.window later log f in
      let (same, written) =
        commit-Fits later fresh w (pos_part tokens) result (with_log w log r)
          (rw (log_of-with_log_self w log r) later_log) in
      (
        same ∙ a,
        written
            ∙ ap (λ l. recent r.window later l ++ entry later (pos_part tokens) fresh ∷ [])
                (log_of-with_log_self w log r)
            ∙ ap (λ l. l ++ entry later (pos_part tokens) fresh ∷ [])
                (recent-recent r.window now later (log_of w r) h),
      )

  abbrev checked : CheckResult × RateLimiter
  checked = check now w (pos (pos_part tokens)) r

  -- A reservation with no other thread between its two sections is allowed exactly when the recent
  -- entries of the workspace leave room for it under both limits. If it is, the log afterwards is
  -- what is recent at the second reading of the clock and one entry with the estimated tokens, a
  -- negative estimate counting as 0; if not, no entry is added.
  pub reserve-Reserves :
      let (result, r') = reserve now later fresh w tokens r in Reserves result.allowed (log_of w r')
  unfolding reserve
  reserve-Reserves = elim (Bool-cases checked.0.allowed) [
    | inl a ↦
        let f = (check_exactly now w (pos_part tokens) r).0 a in
        let (yes_again, written) = commit_after_check checked.0 a f in
        rw a (rw (check-with_log now w (pos (pos_part tokens)) r) (rw yes_again (f, written)))
    | inr a ↦ rw a (
      λ f. false≢true (sym a ∙ (check_exactly now w (pos_part tokens) r).1 f),
      rw (check-with_log now w (pos (pos_part tokens)) r) (log_of-with_log_self w _ r),
    )
  ]

-- Nothing but the logs has changed.
pub record SameLimits (r s : RateLimiter) : Type 0 where
  pub rpm : (w : String) → max_rpm w s ≡ max_rpm w r
  pub tpm : (w : String) → max_tpm w s ≡ max_tpm w r
  pub window : s.window ≡ r.window

commit-elsewhere :
    (now : ℕ) (fresh v w : String) (estimated : ℕ) (result : CheckResult) (r : RateLimiter)
    → SameLimits r (commit now fresh w estimated result r).1
      × (v ≢ w → log_of v (commit now fresh w estimated result r).1 ≡ log_of v r)
unfolding commit
commit-elsewhere now fresh v w estimated result r =
    elim (Bool-cases
      (over_limit (max_rpm w r) (max_tpm w r) estimated (recent r.window now (log_of w r)))) [
        | inl full ↦
            rw full (
              record { rpm = λ u. refl; tpm = λ u. refl; window = refl },
              log_of-with_log_ne v w _ r,
            )
        | inr fits ↦
            rw fits (
              record { rpm = λ u. refl; tpm = λ u. refl; window = refl },
              log_of-with_log_ne v w _ r,
            )
      ]

-- A reservation for one workspace leaves the log of every other workspace, the window and all limits
-- as they were.
pub reserve_others :
    (now later : ℕ) (fresh v w : String) (tokens : ℤ) (r : RateLimiter)
    → let r' = (reserve now later fresh w tokens r).1 in
      SameLimits r r' × (v ≢ w → log_of v r' ≡ log_of v r)
unfolding reserve
reserve_others now later fresh v w tokens r =
    elim (Bool-cases (check now w (pos (pos_part tokens)) r).0.allowed) [
      | inl a ↦ rw a (
          rw (check-with_log now w (pos (pos_part tokens)) r) (
            elsewhere.0,
            λ ne. elsewhere.1 ne ∙ log_of-with_log_ne v w (recent r.window now (log_of w r)) r ne,
          ))
      | inr a ↦ rw a (
          rw (check-with_log now w (pos (pos_part tokens)) r) (
            record { rpm = λ u. refl; tpm = λ u. refl; window = refl },
            log_of-with_log_ne v w _ r,
          ))
    ]
  where
    elsewhere :
        SameLimits r
          (commit later fresh w
            (pos_part tokens)
            (check now w (pos (pos_part tokens)) r).0
            (with_log w (recent r.window now (log_of w r)) r)).1
        × (v ≢ w
            → log_of v
                (commit later fresh w
                  (pos_part tokens)
                  (check now w (pos (pos_part tokens)) r).0
                  (with_log w (recent r.window now (log_of w r)) r)).1
              ≡ log_of v (with_log w (recent r.window now (log_of w r)) r))
    elsewhere =
        let c =
          commit-elsewhere later fresh v w (pos_part tokens)
            (check now w (pos (pos_part tokens)) r).0
            (with_log w (recent r.window now (log_of w r)) r) in
        (record { rpm = c.0.rpm; tpm = c.0.tpm; window = c.0.window }, c.1)
