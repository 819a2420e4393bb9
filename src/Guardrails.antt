-- ===== src/Guardrails.antt =====
-- app/llm_gateway/guardrails, and `_guard_input` and `_guard_output` of app/llm_gateway/__init__.py.
-- The regular expressions, the normal form of Unicode, the JSON parser and the masking engine are
-- functions of a section. A reason is its sentence with what the sentence names.
pub mod Patterns
pub mod Output
pub mod Input
mod Tests
use Prim.Native.String.{◌++◌ as text_append}
use prd2tsd.Prelude.{
  ℕ, ◌+◌, String, Option, none, some, Bool, true, false, not, List, [], ◌∷◌, ◌++◌, ltb, leb, ◌==◌,
  ◌=?◌, ◌&&◌, ◌||◌, any, if◌then◌else◌, Text, codes, max,
}
use prd2tsd.Prelude.Int.{ℤ, pos, negsuc}
use prd2tsd.Breaker.{CircuitBreaker, CircuitState, half_open, is_available}

pub data Severity : Type 0 where
  info : Severity
  warning : Severity
  critical : Severity

pub data Reason : Type 0 where
  no_reason : Reason
  injection : List String → ℕ → Reason
  pii : List String → Reason
  deadline_passed : Reason
  chain_usable : Reason
  chain_open : Reason
  no_breaker : Reason
  breaker_open : Reason
  breaker_half_open : Reason
  breaker_closed : Reason
  sensitive : String → Reason
  not_json : Reason
  empty_response : Reason
  response_present : Reason
  blocked_before : Reason → Reason
  retries_used_up : ℕ → Reason
  retry_empty : Reason
  retry_json : Reason
  retry_timeout : String → Reason
  content_blocked : Reason
  no_retry : Reason

pub record GuardrailResult : Type 0 where
  pub passed : Bool
  pub name : String
  pub blocked : Bool
  pub reason : Reason
  pub severity : Severity
  pub masked_text : Option String

abbrev pub pass : GuardrailResult
pass = record {
  passed = true;
  name = "";
  blocked = false;
  reason = no_reason;
  severity = info;
  masked_text = none;
}

abbrev pub pass_with : Reason → Severity → GuardrailResult
pass_with reason severity = record pass { reason = reason; severity = severity }

abbrev pub warn : Reason → GuardrailResult
warn reason = record pass { passed = false; reason = reason; severity = warning }

abbrev pub block : Reason → GuardrailResult
block reason = record pass { passed = false; blocked = true; reason = reason; severity = critical }

-- What the guardrails read of the context; the deadline is in clock ticks, and may be negative.
pub record Context : Type 0 where
  pub now : ℕ
  pub timeout_seconds : Option ℤ
  pub circuit_breakers : List CircuitBreaker
  pub circuit_breaker : Option CircuitBreaker
  pub expects_json : Bool
  pub retry_count : ℕ
  pub error_type : String
  pub previous_guardrail_results : List GuardrailResult

-- TimeoutGuardrail
abbrev pub passed_deadline : Option ℤ → Bool
passed_deadline none = false
passed_deadline (some (pos n)) = n == 0
passed_deadline (some (negsuc n)) = true

abbrev pub half_open_or_closed : CircuitState → GuardrailResult
half_open_or_closed half_open = pass_with breaker_half_open warning
half_open_or_closed state = pass_with breaker_closed info

abbrev pub check_breaker : ℕ → Option CircuitBreaker → GuardrailResult
check_breaker now none = block no_breaker
check_breaker now (some b) =
    if is_available now b then half_open_or_closed b.state else block breaker_open

abbrev pub check_breakers : ℕ → List CircuitBreaker → Option CircuitBreaker → GuardrailResult
check_breakers now [] b = check_breaker now b
check_breakers now (b ∷ breakers) _ =
    if any (is_available now) (b ∷ breakers) then pass_with chain_usable info else block chain_open

-- `context.get("circuit_breaker") or self._circuit_breaker`
abbrev pub breaker_or : Option CircuitBreaker → Option CircuitBreaker → Option CircuitBreaker
breaker_or none b = b
breaker_or (some b) _ = some b

pub timeout_check : Option CircuitBreaker → String → Context → GuardrailResult
timeout_check own text context =
    if passed_deadline context.timeout_seconds
    then block deadline_passed
    else check_breakers context.now context.circuit_breakers
        (breaker_or context.circuit_breaker own)

-- EmptyResponseGuardrail; what `str.strip` takes for white space.
abbrev pub is_space : ℕ → Bool
is_space c =
    (leb 9 c && leb c 13)
    || (leb 28 c && leb c 32)
    || c == 0x85
    || c == 0xa0
    || c == 0x1680
    || (leb 0x2000 c && leb c 0x200a)
    || c == 0x2028
    || c == 0x2029
    || c == 0x202f
    || c == 0x205f
    || c == 0x3000

pub is_blank : Text → Bool
is_blank [] = true
is_blank (c ∷ s) = is_space c && is_blank s

pub empty_check : String → Context → GuardrailResult
unfolding is_blank
empty_check text context =
    if is_blank (codes text) then warn empty_response else pass_with response_present info

-- RetryDecisionGuardrail
abbrev pub first_blocked : List GuardrailResult → Option GuardrailResult
first_blocked [] = none
first_blocked (r ∷ results) = let rest = first_blocked results in if r.blocked then some r else rest

abbrev pub by_error : String → String → GuardrailResult
by_error fallback_model error_type =
    if error_type =? "empty_response"
    then warn retry_empty
    else if error_type =? "json_parse_error"
    then warn retry_json
    else if error_type =? "timeout"
    then warn (retry_timeout fallback_model)
    else if error_type =? "content_blocked"
    then block content_blocked
    else pass_with no_retry info

abbrev pub decide_retry : ℕ → String → Option GuardrailResult → Context → GuardrailResult
decide_retry max_retries fallback_model (some r) context = block (blocked_before r.reason)
decide_retry max_retries fallback_model none context =
    if leb max_retries context.retry_count
    then record pass { passed = false; reason = retries_used_up max_retries; severity = critical }
    else by_error fallback_model context.error_type

pub retry_check : ℕ → String → String → Context → GuardrailResult
retry_check max_retries fallback_model text context =
    decide_retry max_retries fallback_model (first_blocked context.previous_guardrail_results)
      context

pub data Stage : Type 0 where
  pre_llm : Stage
  post_llm : Stage

pub record Guardrail : Type 0 where
  pub name : String
  pub stage : Stage
  pub check : String → Context → GuardrailResult

-- GuardrailManager
pub record Manager : Type 0 where
  pub pre_guards : List Guardrail
  pub post_guards : List Guardrail

abbrev pub register_at : Stage → Guardrail → Manager → Manager
register_at pre_llm guard m = record m { pre_guards = m.pre_guards ++ guard ∷ [] }
register_at post_llm guard m = record m { post_guards = m.post_guards ++ guard ∷ [] }

pub register : Guardrail → Manager → Manager
register guard m = register_at guard.stage guard m

abbrev pub named_check : Guardrail → String → Context → GuardrailResult
named_check guard text context = record (guard.check text context) { name = guard.name }

-- The loops of `check_input` and `check_output`.
unfoldable pub check_input : List Guardrail → String → Context → List GuardrailResult
check_input [] text context = []
check_input (guard ∷ guards) text context =
    let result = named_check guard text context in
    let rest = check_input guards text context in
    if result.blocked then result ∷ [] else result ∷ rest

abbrev pub is_critical : Severity → Bool
is_critical critical = true
is_critical severity = false

unfoldable pub check_output : List Guardrail → String → Context → List GuardrailResult
check_output [] text context = []
check_output (guard ∷ guards) text context =
    let result = named_check guard text context in
    let rest = check_output guards text context in
    if result.blocked && is_critical result.severity then result ∷ [] else result ∷ rest

-- The loop of `_guard_input` over the results: the prompt so far, or the result that blocks it.
abbrev pub masked_or : Option String → String → String
masked_or none text = text
masked_or (some masked) text = masked

pub data Guarded : Type 0 where
  lets : String → Guarded
  blocks : GuardrailResult → Guarded

unfoldable pub apply_input : String → List GuardrailResult → Guarded
apply_input prompt [] = lets prompt
apply_input prompt (r ∷ results) =
    let rest = apply_input (masked_or r.masked_text prompt) results in
    if r.blocked then blocks r else rest

-- What a caller gets: a text, or the sentence that names the reason of a refusal.
pub data Delivered : Type 0 where
  content : String → Delivered
  refused : Reason → Delivered

-- The loop of `_guard_output` over the results.
abbrev pub is_masked : Option String → Bool
is_masked none = false
is_masked (some text) = true

unfoldable pub apply_output :
    Delivered → Option GuardrailResult → List GuardrailResult → Delivered × Option GuardrailResult
apply_output guarded block_result [] = (guarded, block_result)
apply_output guarded block_result (r ∷ results) =
    let passed_over = apply_output guarded block_result results in
    let masked = apply_output (content (masked_or r.masked_text "")) (some r) results in
    if not r.blocked
    then passed_over
    else if is_masked r.masked_text
    then masked
    else (refused r.reason, some r)
