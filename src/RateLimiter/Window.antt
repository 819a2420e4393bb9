-- ===== src/RateLimiter/Window.antt =====
-- The limits over time: app/llm_gateway/rate_limiter.py promises that no 60 seconds see more than
-- the limit. The history keeps every entry that `reserve` has added, also those that the log drops.
use prd2tsd.Prelude.{
  ℕ, ◌+◌, ◌≤◌, ◌<◌, String, ◌≡◌, refl, true, false, Bool, List, [], ◌∷◌, ◌++◌, arith, All,
  if◌then◌else◌, ◌∙◌, Bool-cases, inl, inr, length-append,
}
use prd2tsd.Prelude.Int.{ℤ, pos_part}
use prd2tsd.RateLimiter.{
  Entry, RateLimiter, log_of, max_rpm, max_tpm, recent, total_tokens, reserve,
}
use prd2tsd.RateLimiter.Load.{
  load, weight_of, load-le, load-recent_le, refused_load, allowed_load, load-nil, weight_of-one,
  weight_of-tokens,
}
use prd2tsd.RateLimiter.Quota.{
  entry, Fits, Reserves, reserve-Reserves, reserve_others, Fits-later, total_tokens-append,
}

-- One call of `reserve`: the clock at its two sections, the id that it draws, its estimate.
pub record Attempt : Type 0 where
  pub now : ℕ
  pub later : ℕ
  pub fresh : String
  pub tokens : ℤ

-- The clock does not go back.
abbrev pub Ordered : ℕ → List Attempt → Type 0
Ordered from [] = Unit
Ordered from (a ∷ rest) = (from ≤ a.now) × (a.now ≤ a.later) × Ordered a.later rest

-- The entries that these calls for one workspace add.
unfoldable pub history : String → List Attempt → RateLimiter → List Entry
history w [] r = []
history w (a ∷ rest) r =
    let (result, r') = reserve a.now a.later a.fresh w a.tokens r in
    let added = history w rest r' in
    if result.allowed then entry a.later (pos_part a.tokens) a.fresh ∷ added else added

All-weaken :
    (from to : ℕ) (h : List Entry)
    → to ≤ from
    → All (λ e. from ≤ e.timestamp) h
    → All (λ e. to ≤ e.timestamp) h
All-weaken from to [] le a = tt
All-weaken from to (e ∷ h) le a = (omega (arith, a.0), All-weaken from to h le a.1)

history-from :
    (w : String) (from : ℕ) (calls : List Attempt) (r : RateLimiter)
    → Ordered from calls
    → All (λ e. from ≤ e.timestamp) (history w calls r)
unfolding history
history-from w from [] r o = tt
history-from w from (a ∷ rest) r o =
    let (result, r') = reserve a.now a.later a.fresh w a.tokens r in
    let later_on =
      All-weaken a.later from (history w rest r') (omega (arith, o.0, o.1))
        (history-from w a.later rest r' o.2) in
    elim (Bool-cases result.allowed) [
      | inl e ↦ rw e (omega (arith, o.0, o.1), later_on)
      | inr e ↦ rw e later_on
    ]

-- The limits that a run starts with, which no call of `reserve` changes.
record Runs (w : String) (rpm tpm window : ℕ) (r : RateLimiter) : Type 0 where
  rpm_is : max_rpm w r ≡ rpm
  tpm_is : max_tpm w r ≡ tpm
  window_is : r.window ≡ window

reserve-Runs :
    (now later : ℕ) (fresh w : String) (tokens : ℤ) {rpm tpm window : ℕ} (r : RateLimiter)
    → Runs w rpm tpm window r
    → Runs w rpm tpm window (reserve now later fresh w tokens r).1
reserve-Runs now later fresh w tokens r u =
    let same = (reserve_others now later fresh w w tokens r).0 in
    record {
      rpm_is = same.rpm w ∙ u.rpm_is;
      tpm_is = same.tpm w ∙ u.tpm_is;
      window_is = same.window ∙ u.window_is;
    }

-- What a call of `reserve` leaves in the log, by its answer.
abbrev Written : ℕ → ℕ → ℕ → Attempt → List Entry → Bool → List Entry → Type 0
Written rpm tpm window a log true log' =
    Fits rpm tpm (pos_part a.tokens) (recent window a.later log)
    × (log' ≡ recent window a.later log ++ entry a.later (pos_part a.tokens) a.fresh ∷ [])
Written rpm tpm window a log false log' = log' ≡ recent window a.now log

Written-of_Reserves :
    (w : String) (a : Attempt) (h : a.now ≤ a.later) (r : RateLimiter) (b : Bool) (log : List Entry)
    → Reserves a.now a.later a.fresh w a.tokens r h b log
    → Written (max_rpm w r) (max_tpm w r) r.window a (log_of w r) b log
Written-of_Reserves w a h r true log (fits, e) =
    (Fits-later _ _ _ r.window a.now a.later (log_of w r) h fits, e)
Written-of_Reserves w a h r false log (full, e) = e

module _ (weight : Entry → ℕ) (rpm tpm window limit : ℕ) (w : String)
    (keep : (t n : ℕ) (i : String) (log : List Entry)
      → Fits rpm tpm n log
      → weight_of weight (log ++ entry t n i ∷ []) ≤ limit) where
  reserved_log :
      (a : Attempt) (r : RateLimiter)
      → Runs w rpm tpm window r
      → a.now ≤ a.later
      → Written rpm tpm window a
          (log_of w r)
          (reserve a.now a.later a.fresh w a.tokens r).0.allowed
          (log_of w (reserve a.now a.later a.fresh w a.tokens r).1)
  reserved_log a r u h =
      rw (← u.rpm_is, ← u.tpm_is, ← u.window_is)
        (Written-of_Reserves w a h r _ _ (reserve-Reserves a.now a.later a.fresh w a.tokens r h))

  -- One call, from what it leaves in the log and what the later calls add.
  history_step :
      (a : Attempt) (log added log' : List Entry) (b : Bool) (t : ℕ)
      → Written rpm tpm window a log b log'
      → a.now ≤ a.later
      → All (λ e. a.later ≤ e.timestamp) added
      → (((t : ℕ) → load weight window t log' ≤ limit)
          → load weight window t log' + load weight window t added ≤ limit)
      → ((t : ℕ) → load weight window t log ≤ limit)
      → load weight window t log
          + load weight window t
              (if b then entry a.later (pos_part a.tokens) a.fresh ∷ added else added)
        ≤ limit
  history_step a log added log' true t (fits, e) h after ih old =
      let new = keep a.later (pos_part a.tokens) a.fresh (recent window a.later log) fits in
      allowed_load weight window t a.later limit (entry a.later (pos_part a.tokens) a.fresh) log
        added refl after
        (rw e at (ih (λ s. omega (arith, rw (← e) at new, load-le weight window s log')))) (old t)
  history_step a log added log' false t e h after ih old =
      refused_load weight window t a.now limit log added (All-weaken a.later a.now added h after)
        (rw e at (ih (λ s. rw e (omega (arith, old s, load-recent_le weight window s a.now log)))))
        (old t)

  load-history :
      (calls : List Attempt) (from t : ℕ) (r : RateLimiter)
      → Runs w rpm tpm window r
      → Ordered from calls
      → ((t : ℕ) → load weight window t (log_of w r) ≤ limit)
      → load weight window t (log_of w r) + load weight window t (history w calls r) ≤ limit
  unfolding history load
  load-history [] from t r u o old = omega (arith, old t)
  load-history (a ∷ rest) from t r u o old =
      let (result, r') = reserve a.now a.later a.fresh w a.tokens r in
      history_step a (log_of w r) (history w rest r') (log_of w r') result.allowed t
        (reserved_log a r u o.1) o.1 (history-from w a.later rest r' o.2)
        (load-history rest a.later t r' (reserve-Runs a.now a.later a.fresh w a.tokens r u) o.2) old

-- The number of entries, and of tokens, that the window ending at `t` sees.
pub requests_in : ℕ → ℕ → List Entry → ℕ
requests_in = load (λ _. 1)

pub tokens_in : ℕ → ℕ → List Entry → ℕ
tokens_in = load (λ e. e.tokens)

-- Whatever a workspace with an empty log asks for, as long as the clock does not go back and nobody
-- reconciles, every window of time, wherever it ends, sees at most as many admitted requests as the
-- request limit and at most as many estimated tokens as the token limit, for each that is positive.
pub window_limits :
    (w : String) (calls : List Attempt) (from t : ℕ) (r : RateLimiter)
    → log_of w r ≡ []
    → Ordered from calls
    → (0 < max_rpm w r → requests_in r.window t (history w calls r) ≤ max_rpm w r)
      × (0 < max_tpm w r → tokens_in r.window t (history w calls r) ≤ max_tpm w r)
unfolding requests_in tokens_in total_tokens
window_limits w calls from t r e o =
    let runs : Runs w (max_rpm w r) (max_tpm w r) r.window r = record {
      rpm_is = refl;
      tpm_is = refl;
      window_is = refl;
    } in
    let fresh_log = λ (weight : Entry → ℕ) (s : ℕ). load-nil weight r.window s (log_of w r) e in
    (
      λ p. omega (
        arith,
        load-history (λ _. 1) (max_rpm w r) (max_tpm w r) r.window (max_rpm w r) w
            (λ t n i log f.
              rw weight_of-one (omega (arith, f.0 p, length-append log (entry t n i ∷ []))))
            calls from t r runs o (λ s. omega (arith, fresh_log (λ _. 1) s)),
      ),
      λ p. omega (
        arith,
        load-history (λ e. e.tokens) (max_rpm w r) (max_tpm w r) r.window (max_tpm w r) w
            (λ t n i log f.
              rw weight_of-tokens
                (omega (arith, f.1 p, total_tokens-append log (entry t n i ∷ []))))
            calls from t r runs o (λ s. omega (arith, fresh_log (λ e. e.tokens) s)),
      ),
    )
