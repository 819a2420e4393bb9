-- ===== src/RateLimiter.antt =====
-- app/llm_gateway/rate_limiter.py: the sliding-window limiter. A reading of `time.monotonic()` is a
-- number of clock ticks, and `window` is the 60 seconds of `_window_seconds` in these ticks. A limit
-- of 0 means no limit. `uuid4().hex` is the argument `fresh` of the operations that call it.
pub mod Load
pub mod Window
pub mod Quota
pub mod Reconcile
mod Tests
use mathlib.Core.Option
use prd2tsd.Prelude.{
  ℕ, ◌+◌, ◌-◌, String, Option, none, some, Bool, true, false, ◌&&◌, ◌||◌, List, [], ◌∷◌, ◌++◌, max,
  ltb, leb, ◌==◌, ◌=?◌, if◌then◌else◌, length, keep_if,
}
use prd2tsd.Prelude.Int.{ℤ, pos, negsuc, pos_part, neg_part}
use prd2tsd.Prelude.Dict.{Dict, lookup, insert, erase}

-- One entry of a request log: `(timestamp, tokens, reservation_id)`.
pub record Entry : Type 0 where
  pub timestamp : ℕ
  pub tokens : ℕ
  pub reservation_id : String

-- `{"rpm": int, "tpm": int}`, where either key may be missing.
pub record Limit : Type 0 where
  pub rpm : Option ℕ
  pub tpm : Option ℕ

-- `RateLimiter`, without its lock.
pub record RateLimiter : Type 0 where
  pub default_rpm : ℕ
  pub default_tpm : ℕ
  pub window : ℕ
  pub request_log : Dict (List Entry)
  pub custom_limits : Dict Limit

-- `x or y` on numbers
abbrev number_or : ℕ → ℕ → ℕ
number_or x y = if x == 0 then y else x

-- `__init__`, with the two settings that it reads.
pub init : ℕ → ℕ → ℕ → ℕ → ℕ → RateLimiter
init settings_rpm settings_tpm window default_rpm default_tpm = record {
  default_rpm = number_or default_rpm settings_rpm;
  default_tpm = number_or default_tpm settings_tpm;
  window = window;
  request_log = [];
  custom_limits = [];
}

abbrev pub get_or {ℓ} : {A : Type ℓ} → Option A → A → A
get_or none d = d
get_or (some a) d = a

-- `given if given is not None else old`
abbrev replaced : Option ℕ → Option ℕ → Option ℕ
replaced none old = old
replaced (some n) old = some n

abbrev pub no_limit : Limit
no_limit = record { rpm = none; tpm = none }

-- `set_limit`
pub set_limit : String → Option ℕ → Option ℕ → RateLimiter → RateLimiter
set_limit workspace_id rpm tpm r =
    let limit = get_or (lookup workspace_id r.custom_limits) no_limit in
    record r {
      custom_limits =
          insert workspace_id
            (record { rpm = replaced rpm limit.rpm; tpm = replaced tpm limit.tpm }) r.custom_limits;
    }

-- `self._request_log[workspace_id]` of the `defaultdict`
abbrev pub log_of : String → RateLimiter → List Entry
log_of workspace_id r = get_or (lookup workspace_id r.request_log) []

abbrev pub with_log : String → List Entry → RateLimiter → RateLimiter
with_log workspace_id log r = record r { request_log = insert workspace_id log r.request_log }

abbrev pub limits_of : String → RateLimiter → Limit
limits_of workspace_id r = get_or (lookup workspace_id r.custom_limits) no_limit

abbrev pub max_rpm : String → RateLimiter → ℕ
max_rpm workspace_id r = get_or (limits_of workspace_id r).rpm r.default_rpm

abbrev pub max_tpm : String → RateLimiter → ℕ
max_tpm workspace_id r = get_or (limits_of workspace_id r).tpm r.default_tpm

-- `ts > now - window`
abbrev pub is_recent : ℕ → ℕ → Entry → Bool
is_recent window now e = ltb now (e.timestamp + window)

-- The entries that are not older than the window.
abbrev pub recent : ℕ → ℕ → List Entry → List Entry
recent window now log = keep_if (is_recent window now) log

-- `sum(tk for _, tk, _ in log)`
unfoldable pub total_tokens : List Entry → ℕ
total_tokens [] = 0
total_tokens (e ∷ log) = e.tokens + total_tokens log

-- The result dictionary. `reservation_id` is `none` until `reserve` sets it.
pub record CheckResult : Type 0 where
  pub allowed : Bool
  pub retry_after : ℕ
  pub remaining_rpm : ℤ
  pub remaining_tpm : ℤ
  pub reservation_id : Option String

-- `max(0, limit - used) if limit > 0 else -1`
abbrev pub remaining : ℕ → ℕ → ℤ
remaining limit used = if limit == 0 then negsuc 0 else pos (limit - used)

-- `oldest + window - now`, for the first entry of the log
abbrev pub wait_for : ℕ → ℕ → List Entry → ℕ
wait_for window now [] = window
wait_for window now (e ∷ log) = e.timestamp + window - now

abbrev pub rpm_full : ℕ → ℕ → Bool
rpm_full limit used = ltb 0 limit && leb limit used

-- `max_tpm > 0 and current_tpm + tokens > max_tpm`; the argument may be negative.
abbrev pub tpm_full : ℕ → ℕ → ℤ → Bool
tpm_full limit used tokens = ltb 0 limit && ltb (limit + neg_part tokens) (used + pos_part tokens)

-- The RPM test of `check`.
check_rpm : ℕ → ℕ → ℕ → List Entry → CheckResult → CheckResult
check_rpm limit window now log result =
    if rpm_full limit (length log)
    then record result {
      allowed = false;
      retry_after = max result.retry_after (wait_for window now log);
      remaining_rpm = pos 0;
    }
    else result

-- The new `retry_after` in the TPM test of `check`.
tpm_wait : ℕ → ℕ → List Entry → ℕ → ℕ
tpm_wait window now [] retry = retry
tpm_wait window now (e ∷ log) retry =
    if retry == 0 then max retry (e.timestamp + window - now) else retry

-- The TPM test of `check`.
check_tpm : ℕ → ℕ → ℕ → ℤ → List Entry → CheckResult → CheckResult
unfolding tpm_wait
check_tpm limit window now tokens log result =
    if tpm_full limit (total_tokens log) tokens
    then record result { allowed = false; retry_after = tpm_wait window now log result.retry_after }
    else result

-- `check`
unfoldable pub check : ℕ → String → ℤ → RateLimiter → CheckResult × RateLimiter
unfolding check_rpm check_tpm
check now workspace_id tokens r =
    let log = recent r.window now (log_of workspace_id r) in
    let rpm = max_rpm workspace_id r in
    let tpm = max_tpm workspace_id r in
    let result : CheckResult = record {
      allowed = true;
      retry_after = 0;
      remaining_rpm = remaining rpm (length log);
      remaining_tpm = remaining tpm (total_tokens log);
      reservation_id = none;
    } in
    (
      check_tpm tpm r.window now tokens log (check_rpm rpm r.window now log result),
      with_log workspace_id log r,
    )

-- `record`
pub record_usage : ℕ → String → String → ℤ → RateLimiter → RateLimiter
record_usage now fresh workspace_id tokens r =
    with_log workspace_id
      (log_of workspace_id r
        ++ record { timestamp = now; tokens = pos_part tokens; reservation_id = fresh } ∷ [])
      r

-- `max(0, left - used) if left >= 0 else -1`
abbrev pub spend : ℤ → ℕ → ℤ
spend (pos left) used = pos (left - used)
spend (negsuc n) used = negsuc 0

-- The test of the second locked section of `reserve`.
abbrev pub over_limit : ℕ → ℕ → ℕ → List Entry → Bool
over_limit rpm tpm estimated log =
    rpm_full rpm (length log) || tpm_full tpm (total_tokens log) (pos estimated)

-- The second locked section of `reserve`: it tests again, since another thread may have written.
unfoldable pub commit :
    ℕ → String → String → ℕ → CheckResult → RateLimiter → CheckResult × RateLimiter
commit now fresh workspace_id estimated result r =
    let log = recent r.window now (log_of workspace_id r) in
    let rpm = max_rpm workspace_id r in
    let tpm = max_tpm workspace_id r in
    if over_limit rpm tpm estimated log
    then (
      record result {
        allowed = false;
        reservation_id = some "";
        remaining_rpm = remaining rpm (length log);
        remaining_tpm = remaining tpm (total_tokens log);
      },
      with_log workspace_id log r,
    )
    else (
      record result {
        reservation_id = some fresh;
        remaining_rpm = spend result.remaining_rpm 1;
        remaining_tpm = spend result.remaining_tpm estimated;
      },
      with_log workspace_id
          (log ++ record { timestamp = now; tokens = estimated; reservation_id = fresh } ∷ []) r,
    )

-- `reserve`, with the clock at its two sections and no other thread between them.
unfoldable pub reserve : ℕ → ℕ → String → String → ℤ → RateLimiter → CheckResult × RateLimiter
reserve now later fresh workspace_id estimated_tokens r =
    let estimated = pos_part estimated_tokens in
    let (result, r') = check now workspace_id (pos estimated) r in
    if result.allowed
    then commit later fresh workspace_id estimated result r'
    else (record result { reservation_id = some "" }, r')

-- The loop of `reconcile`: the first entry of the reservation gets the tokens that were used;
-- `none` means that there is no such entry.
replace_tokens : String → ℕ → List Entry → Option (List Entry)
replace_tokens reservation_id actual [] = none
replace_tokens reservation_id actual (e ∷ log) =
    let rest = Option.map (λ l. e ∷ l) (replace_tokens reservation_id actual log) in
    if e.reservation_id =? reservation_id then some (record e { tokens = actual } ∷ log) else rest

-- `reservation_id or uuid.uuid4().hex`
abbrev id_or : String → String → String
id_or reservation_id fresh = if reservation_id =? "" then fresh else reservation_id

-- `reconcile`
unfoldable pub reconcile : ℕ → String → String → String → ℤ → RateLimiter → RateLimiter
unfolding replace_tokens
reconcile now fresh workspace_id reservation_id actual_tokens r =
    let actual = pos_part actual_tokens in
    let log = log_of workspace_id r in
    with_log workspace_id
      (get_or (replace_tokens reservation_id actual log) (
        log
        ++ record { timestamp = now; tokens = actual; reservation_id = id_or reservation_id fresh }
          ∷ []))
      r

-- `reset`; an empty workspace id counts as none.
pub reset : Option String → RateLimiter → RateLimiter
reset none r = record r { request_log = [] }
reset (some workspace_id) r =
    if workspace_id =? ""
    then record r { request_log = [] }
    else record r { request_log = erase workspace_id r.request_log }
