-- ===== src/Failover/Tests.antt =====
-- Routes with a fallback, and a call along one.
use prd2tsd.Prelude.{
  ℕ, String, none, some, true, [], ◌∷◌, ◌++◌, ◌≡◌, refl, arith, eq_iff, ◌≢◌, ◌=?◌, if◌then◌else◌,
}
use prd2tsd.Prelude.Dict.{lookup}
use prd2tsd.Failover.{
  FailoverTarget, RoutingRule, Attempt, route_targets, fallback_targets, try_targets,
}
use prd2tsd.Failover.Healthy.{healthy_answers, Sound}

abbrev rule : RoutingRule
rule = record {
  kind = "llm";
  provider = "openai";
  model = "gpt-4o";
  fallbacks = record { provider = "deepseek"; model = "deepseek-chat"; kind = none } ∷ [];
}

abbrev main : FailoverTarget
main = record { provider = "openai"; model = "gpt-4o"; priority = 0; model_type = "llm" }

abbrev second_target : FailoverTarget
second_target = record {
  provider = "deepseek";
  model = "deepseek-chat";
  priority = 1;
  model_type = "llm";
}

rule_targets : route_targets rule ≡ main ∷ second_target ∷ []
unfolding route_targets fallback_targets
rule_targets = refl

-- One provider is down.
abbrev world : FailoverTarget → Attempt ℕ
world t = record {
  configured = true;
  before = 5;
  after = 9;
  response = if t.provider =? "openai" then none else some 42;
}

no_breaker : Sound "deepseek" []
unfolding lookup
no_breaker b found = ground (arith, found)

other_provider : ◌≢◌ {A = String} "openai" "deepseek"
other_provider e = ground (arith, (eq_iff "openai" "deepseek").1 e)

healthy_answers_example :
    (p : ℕ × FailoverTarget) × ((try_targets 1000 world ((main ∷ []) ++ second_target ∷ []) []).0
      ≡ some p)
healthy_answers_example =
    healthy_answers 1000 world (main ∷ []) [] second_target 42 [] (other_provider, tt) refl refl
      no_breaker
