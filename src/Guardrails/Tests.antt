-- ===== src/Guardrails/Tests.antt =====
-- A small engine, and the theorems about the guardrails with it.
use prd2tsd.Prelude.{String, none, some, Bool, true, false, [], ◌∷◌, ◌≡◌, refl, ◌∙◌, ◌=?◌, ◌||◌}
use prd2tsd.Prelude.Int.{pos}
use prd2tsd.Breaker.{CircuitBreaker, init, is_available}
use prd2tsd.Guardrails.{Context, lets, content, timeout_check}
use prd2tsd.Guardrails.Patterns.{
  Pattern, Engine, api_key, password, email, blocked_content, registered, guard_input, guard_output,
  matched, score, injection_check, masked,
}
use prd2tsd.Guardrails.Input.{verdict, guard_input-verdict}
use prd2tsd.Guardrails.Output.{first_found, with_mask, delivers_exactly}

abbrev finds : Pattern → String → Bool
finds api_key text = text =? "sk-1 pw-2"
finds password text = text =? "sk-1 pw-2" || text =? "[MASKED] pw-2"
finds email text = text =? "a@b.c"
finds p text = false

abbrev replaces : Pattern → String → String → String
replaces api_key mask text = "[MASKED] pw-2"
replaces p mask text = mask

abbrev engine : Engine
engine = record {
  search = finds;
  sub = replaces;
  normalize = λ text. text;
  fenced = λ text. none;
  strip = λ text. text;
  is_json = λ text. false;
  mask_reversible = λ text. text;
  unmask = λ text. text;
}

abbrev breaker : CircuitBreaker
breaker = init "provider:openai" 3 30 1

abbrev context : Context
context = record {
  now = 5;
  timeout_seconds = some (pos 30);
  circuit_breakers = breaker ∷ [];
  circuit_breaker = some breaker;
  expects_json = true;
  retry_count = 0;
  error_type = "";
  previous_guardrail_results = [];
}

guard_input-verdict_example :
    guard_input engine (registered engine 5) "a@b.c" context ≡ verdict engine 5 "a@b.c" context
guard_input-verdict_example = guard_input-verdict engine 5 "a@b.c" context

through : guard_input engine (registered engine 5) "hello" context ≡ lets "hello"
unfolding injection_check matched score timeout_check is_available masked
through = guard_input-verdict engine 5 "hello" context ∙ refl

delivers_exactly_example :
    (guard_output engine (registered engine 5) "sk-1 pw-2" context).0
    ≡ content (with_mask engine (first_found engine blocked_content "sk-1 pw-2") "sk-1 pw-2")
delivers_exactly_example = delivers_exactly engine 5 "sk-1 pw-2" context refl refl

-- The password stays in what is delivered.
still_there :
    finds password (with_mask engine (first_found engine blocked_content "sk-1 pw-2") "sk-1 pw-2")
    ≡ true
still_there = refl
