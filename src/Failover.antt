-- ===== src/Failover.antt =====
-- The routes of a call: app/llm_gateway/failover.py, `FailoverManager`, and the parts of
-- app/llm_gateway/__init__.py that build a chain and call along it. The circuit breakers are those of
-- app/core/circuit_breaker.py, in their registry. What a provider answers is an input.
pub mod Order
pub mod Healthy
pub mod Downgrade
mod Tests
use Prim.Native.String.{◌++◌ as text_append}
use prd2tsd.Prelude.{
  ℕ, ◌+◌, String, Option, none, some, Bool, true, false, List, [], ◌∷◌, ◌&&◌, ◌||◌, not, leb, ◌=?◌,
  if◌then◌else◌,
}
use prd2tsd.Prelude.Dict.{Dict, lookup, insert}
use prd2tsd.Breaker.{CircuitBreaker, Outcome, returned, raised, circuit_open, call, is_available}
use prd2tsd.Breaker.Registry.{Registry, breaker_name, ensure}

-- `FailoverTarget`
pub record FailoverTarget : Type 0 where
  pub provider : String
  pub model : String
  pub priority : ℕ
  pub model_type : String

abbrev pub Chains : Type 0
Chains = Dict (List FailoverTarget)

-- `sorted` by the priority, which keeps the order of equal ones.
pub insert_target : FailoverTarget → List FailoverTarget → List FailoverTarget
insert_target t [] = t ∷ []
insert_target t (u ∷ chain) =
    let rest = insert_target t chain in
    if leb t.priority u.priority then t ∷ (u ∷ chain) else u ∷ rest

unfoldable pub sorted : List FailoverTarget → List FailoverTarget
unfolding insert_target
sorted [] = []
sorted (t ∷ chain) = insert_target t (sorted chain)

-- `configure`
unfoldable pub configure : String → List FailoverTarget → Chains → Chains
configure model_type chain chains = insert model_type (sorted chain) chains

abbrev pub chain_or : Option (List FailoverTarget) → List FailoverTarget
chain_or none = []
chain_or (some chain) = chain

-- `get_chain`
unfoldable pub get_chain : String → Chains → List FailoverTarget
get_chain model_type chains = chain_or (lookup model_type chains)

-- `breaker is None or breaker.is_available`
abbrev pub may_try : Option CircuitBreaker → ℕ → Bool
may_try none now = true
may_try (some b) now = is_available now b

-- The breaker of a provider, as `_default_breaker_resolver` finds it.
abbrev pub usable : ℕ → Registry → FailoverTarget → Bool
usable now r t = may_try (lookup (breaker_name t.provider) r) now

unfoldable pub available : ℕ → Registry → List FailoverTarget → List FailoverTarget
available now r [] = []
available now r (t ∷ chain) =
    let rest = available now r chain in if usable now r t then t ∷ rest else rest

-- `get_available_targets`
unfoldable pub get_available_targets : ℕ → Registry → String → Chains → List FailoverTarget
get_available_targets now r model_type chains = available now r (get_chain model_type chains)

pub first : List FailoverTarget → Option FailoverTarget
first [] = none
first (t ∷ chain) = some t

-- `get_target`; `none` is `AllProvidersUnavailableError`.
unfoldable pub get_target : ℕ → Registry → String → Chains → Option FailoverTarget
unfolding first
get_target now r model_type chains = first (get_available_targets now r model_type chains)

-- An entry of `RoutingRule.fallbacks`; a key that it lacks is empty, or `none`.
pub record Fallback : Type 0 where
  pub provider : String
  pub model : String
  pub kind : Option String

-- `RoutingRule`
pub record RoutingRule : Type 0 where
  pub kind : String
  pub provider : String
  pub model : String
  pub fallbacks : List Fallback

abbrev kind_or : Option String → String → String
kind_or none d = d
kind_or (some kind) d = kind

-- `provider and model and (provider, model) != (rule.provider, rule.model)`
abbrev pub is_other : Fallback → String → String → Bool
is_other f provider model =
    not (f.provider =? "")
    && not (f.model =? "")
    && not (f.provider =? provider && f.model =? model)

-- The fallbacks, numbered from a priority on.
unfoldable pub fallback_targets : RoutingRule → ℕ → List Fallback → List FailoverTarget
fallback_targets rule priority [] = []
fallback_targets rule priority (f ∷ fallbacks) =
    let rest = fallback_targets rule (priority + 1) fallbacks in
    if is_other f rule.provider rule.model
    then record {
      provider = f.provider;
      model = f.model;
      priority = priority;
      model_type = kind_or f.kind rule.kind;
    }
      ∷ rest
    else rest

unfoldable pub route_targets : RoutingRule → List FailoverTarget
route_targets rule =
    record { provider = rule.provider; model = rule.model; priority = 0; model_type = rule.kind }
    ∷ fallback_targets rule 1 rule.fallbacks

-- `_route_key`
pub route_key : String → RoutingRule → String
route_key task_type rule = text_append task_type (
    text_append ":" (
      text_append rule.kind
        (text_append ":" (text_append rule.provider (text_append ":" rule.model)))))

unfoldable pub ensure_all : ℕ → List FailoverTarget → Registry → Registry
ensure_all second [] r = r
ensure_all second (t ∷ chain) r = ensure_all second chain (ensure second t.provider r).1

-- `_configure_route_failover`: the targets to try, the chains and the breakers; `second` is the
-- number of clock ticks in a second.
unfoldable pub configure_route_failover :
    ℕ → ℕ → String → RoutingRule → Chains → Registry → List FailoverTarget × Chains × Registry
configure_route_failover second now task_type rule chains r =
    let targets = route_targets rule in
    let r' = ensure_all second targets r in
    let chains' = configure (route_key task_type rule) targets chains in
    (get_available_targets now r' (route_key task_type rule) chains', chains', r')

-- One attempt, as the world answers it: whether there is a configuration of the provider, the times
-- before and after the call, and its response, `none` if it raises or times out.
pub record Attempt (A : Type 0) : Type 0 where
  pub configured : Bool
  pub before : ℕ
  pub after : ℕ
  pub response : Option A

module _ {A : Type 0} where
  -- The breaker's call for a target, and the registry that holds the changed breaker.
  unfoldable pub attempt : ℕ → FailoverTarget → Attempt A → Registry → Outcome A × Registry
  attempt second t a r =
      let (b, r1) = ensure second t.provider r in
      let (outcome, b') = call a.before a.after a.response b in
      (outcome, insert (breaker_name t.provider) b' r1)

  -- The loop of `_failover_call`: `none` if every target fails.
  unfoldable pub try_targets :
      ℕ
      → (FailoverTarget → Attempt A)
      → List FailoverTarget
      → Registry
      → Option (A × FailoverTarget) × Registry
  try_targets second world [] r = (none, r)
  try_targets second world (t ∷ targets) r =
      let (outcome, r') = attempt second t (world t) r in
      let rest = try_targets second world targets r' in
      let skipped = try_targets second world targets r in
      if (world t).configured
      then elim outcome [
        | returned response ↦ (some (response, t), r')
        | raised ↦ rest
        | circuit_open state ↦ rest
      ]
      else skipped

  -- `_failover_call`
  unfoldable pub failover_call :
      ℕ
      → ℕ
      → String
      → RoutingRule
      → (FailoverTarget → Attempt A)
      → Chains
      → Registry
      → Option (A × FailoverTarget) × Registry
  failover_call second now task_type rule world chains r =
      let (targets, chains', r') = configure_route_failover second now task_type rule chains r in
      try_targets second world targets r'
