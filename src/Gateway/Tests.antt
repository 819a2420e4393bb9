-- ===== src/Gateway/Tests.antt =====
-- One call of the gateway.
use prd2tsd.Prelude.{◌+◌, none, some, true, [], ◌∷◌, ◌++◌, ◌≡◌, ◌≢◌, refl, arith, All}
use prd2tsd.Prelude.Int.{pos}
use prd2tsd.Prelude.Dict.{lookup, insert}
use prd2tsd.RateLimiter.{total_tokens, reserve, recent, log_of, check, commit}
use prd2tsd.RateLimiter.Quota.{entry}
use prd2tsd.Gateway.{LlmGateway, Request, World, complete}
use prd2tsd.Gateway.Charged.{used, call_charged}
use prd2tsd.Gateway.Spending.{spent, bill, call_billed}

abbrev request : Request
request = record {
  workspace_id = "w";
  task_type = "chat";
  rule = record { kind = "llm"; provider = "openai"; model = "gpt-4o"; fallbacks = [] };
  model_name = "gpt-4o";
  estimated_tokens = pos 500;
}

abbrev world : World
world = record {
  input_block = none;
  now = 10;
  later = 11;
  trying = 12;
  after = 40;
  fresh = "a1";
  other = "a2";
  second = 1000;
  should_downgrade = true;
  cached = λ model. none;
  attempts = λ t. record {
    configured = true;
    before = 13;
    after = 39;
    response = some (record {
      content = "done";
      model = t.model;
      input_tokens = 120;
      output_tokens = 80;
      cost = 0;
    });
  };
  guard_output = λ content. content;
  price = λ model input output. input + output;
  ledger_up = true;
}

abbrev gateway : LlmGateway
gateway = record {
  limiter = record {
    default_rpm = 2;
    default_tpm = 100000;
    window = 60;
    request_log = [];
    custom_limits = [];
  };
  chains = [];
  breakers = [];
  stored = [];
  ledger = [];
}

allowed : (reserve 10 11 "a1" "w" (pos 500) gateway.limiter).0.allowed ≡ true
unfolding reserve check commit total_tokens lookup insert
allowed = refl

new : All (λ e. e.reservation_id ≢ "a1") (recent 60 11 (log_of "w" gateway.limiter))
unfolding lookup
new = tt

call_charged_example :
    let (answer, g) = complete request world gateway in
    log_of "w" g.limiter
    ≡ recent 60 11 (log_of "w" gateway.limiter) ++ entry 11 (used answer) "a1" ∷ []
call_charged_example = call_charged request world gateway refl (omega arith) allowed new

call_billed_example :
    let (answer, g) = complete request world gateway in
    spent "w" g.ledger ≡ bill true "w" "w" answer + spent "w" gateway.ledger
call_billed_example = call_billed "w" request world gateway
