-- ===== src/Gateway.antt =====
-- app/llm_gateway/__init__.py, `LLMGateway.complete` from the point where the route is resolved: one
-- call from its start to its end, with no other call in between. Spans and metrics are left out. The
-- guardrails, the budget's advice, the cache's answer, the clock, the identifiers and the providers'
-- answers are inputs.
pub mod Charged
pub mod Spending
mod Tests
use prd2tsd.Prelude.{
  ℕ, ◌+◌, String, Option, none, some, Bool, true, false, not, List, [], ◌∷◌, ltb, ◌=?◌, ◌||◌,
  if◌then◌else◌, map, rounded_to,
}
use prd2tsd.Prelude.Int.{ℤ, pos}
use prd2tsd.Breaker.Registry.{Registry, ensure}
use prd2tsd.RateLimiter.{RateLimiter, CheckResult, reserve, reconcile}
use prd2tsd.Failover.{
  FailoverTarget, RoutingRule, Chains, Attempt, configure_route_failover, try_targets,
}
use prd2tsd.Failover.Downgrade.{apply_budget_downgrade}

-- `LLMResponse` of a provider. A cost is a number of the smallest unit of money.
pub record Response : Type 0 where
  pub content : String
  pub model : String
  pub input_tokens : ℕ
  pub output_tokens : ℕ
  pub cost : ℕ

-- A row of the budget's ledger.
pub record Usage : Type 0 where
  pub workspace_id : String
  pub cost : ℕ
  pub model : String

-- What the gateway keeps; `stored` is what it has written to the cache, by model, the newest first.
pub record LlmGateway : Type 0 where
  pub limiter : RateLimiter
  pub chains : Chains
  pub breakers : Registry
  pub stored : List (String × String)
  pub ledger : List Usage

pub record Request : Type 0 where
  pub workspace_id : String
  pub task_type : String
  pub rule : RoutingRule
  pub model_name : String
  pub estimated_tokens : ℤ

-- The inputs of one call: the reason of a guardrail that blocks the prompt; the clock at the two
-- sections of the reservation, at the reading of the breakers and at the settlement; the two
-- identifiers of uuid4; the clock ticks in a second; the advice of the budget; the cache's answer for
-- a model; the providers' answers; the output guardrails; the price of a response; and whether the
-- ledger can be written.
pub record World : Type 0 where
  pub input_block : Option String
  pub now : ℕ
  pub later : ℕ
  pub trying : ℕ
  pub after : ℕ
  pub fresh : String
  pub other : String
  pub second : ℕ
  pub should_downgrade : Bool
  pub cached : String → Option String
  pub attempts : FailoverTarget → Attempt Response
  pub guard_output : String → String
  pub price : String → ℕ → ℕ → ℕ
  pub ledger_up : Bool

pub data Answer : Type 0 where
  input_blocked : String → Answer
  rate_limited : ℕ → Answer
  from_cache : String → String → Answer
  all_calls_failed : Answer
  answered : Response → Answer

-- `reconcile` of the reservation.
abbrev pub settle : Request → World → String → ℕ → LlmGateway → LlmGateway
settle req world reservation used g = record g {
  limiter = reconcile world.after world.other req.workspace_id reservation (pos used) g.limiter;
}

-- `resp.model or target_model`
abbrev pub model_or : String → String → String
model_or model target = if model =? "" then target else model

-- The column of a cost has six decimals; costs are billionths of a dollar.
abbrev pub as_column : ℕ → ℕ
as_column cost = rounded_to 1000 cost

-- `record_usage`: a row that the table does not take is lost.
unfoldable pub record_usage : Bool → String → ℕ → String → LlmGateway → LlmGateway
record_usage ledger_up workspace_id cost model g =
    if workspace_id =? "" || not (ltb 0 cost) || not ledger_up then g else record g {
      ledger =
          record { workspace_id = workspace_id; cost = as_column cost; model = model } ∷ g.ledger;
    }

-- What is delivered: the guarded content, and the price where the provider names none.
abbrev pub delivered : World → String → Response → Response
delivered world model response = record response {
  content = world.guard_output response.content;
  cost =
      if ltb 0 response.cost
      then response.cost
      else world.price model response.input_tokens response.output_tokens;
}

-- Steps 7 and 8: a response, or none, from the chain.
finish :
    Request → World → String → Option (Response × FailoverTarget) → LlmGateway → Answer × LlmGateway
finish req world reservation none g = (all_calls_failed, settle req world reservation 0 g)
finish req world reservation (some (response, target)) g =
    let model = model_or response.model target.model in
    let result = delivered world model response in
    let kept = record g { stored = (model, result.content) ∷ g.stored } in
    (
      answered result,
      settle req world reservation (response.input_tokens + response.output_tokens)
          (record_usage world.ledger_up req.workspace_id result.cost model kept),
    )

-- Step 5: the chain of the rule.
call_chain : Request → World → String → RoutingRule → LlmGateway → Answer × LlmGateway
call_chain req world reservation rule g =
    let (targets, chains, breakers) =
      configure_route_failover world.second world.trying req.task_type rule g.chains g.breakers in
    let (outcome, breakers') = try_targets world.second world.attempts targets breakers in
    finish req world reservation outcome (record g { chains = chains; breakers = breakers' })

-- Step 4: the cache.
ask_cache :
    Request
    → World
    → String
    → RoutingRule
    → String
    → Option String
    → LlmGateway
    → Answer × LlmGateway
ask_cache req world reservation rule model (some content) g =
    (from_cache content model, settle req world reservation 0 g)
ask_cache req world reservation rule model none g = call_chain req world reservation rule g

-- Steps 3 and 4, once tokens are reserved.
reserved : Request → World → String → LlmGateway → Answer × LlmGateway
reserved req world reservation g =
    let (rule, model) =
      (if world.should_downgrade
        then apply_budget_downgrade req.rule req.model_name
        else (req.rule, req.model_name)) in
    ask_cache req world reservation rule model (world.cached model) g

abbrev id_of : Option String → String
id_of none = "None"
id_of (some i) = i

pub admitted : Request → World → LlmGateway → Answer × LlmGateway
admitted req world g =
    let (result, limiter) =
      reserve world.now world.later world.fresh req.workspace_id req.estimated_tokens g.limiter in
    let g' = record g { limiter = limiter } in
    if result.allowed
    then reserved req world (id_of result.reservation_id) g'
    else (rate_limited result.retry_after, g')

-- Step 0: a blocked prompt goes no further.
unfoldable pub after_guard : Request → World → Option String → LlmGateway → Answer × LlmGateway
after_guard req world (some reason) g = (input_blocked reason, g)
after_guard req world none g = admitted req world g

-- `_route_breakers`: the breakers of the route and its fallbacks.
pub ensure_each : ℕ → List String → Registry → Registry
ensure_each second [] r = r
ensure_each second (provider ∷ providers) r =
    ensure_each second providers (if provider =? "" then r else (ensure second provider r).1)

-- The breaker of the route's own provider comes first, whatever its name.
unfoldable pub route_breakers : ℕ → RoutingRule → Registry → Registry
route_breakers second rule r =
    ensure_each second (rule.provider ∷ map (λ f. f.provider) rule.fallbacks)
      (ensure second rule.provider r).1

-- `complete`
unfoldable pub complete : Request → World → LlmGateway → Answer × LlmGateway
complete req world g =
    after_guard req world world.input_block
      (record g { breakers = route_breakers world.second req.rule g.breakers })
