-- ===== src/Budget/Flags.antt =====
-- The flags of `check` of app/llm_gateway/budget_controller.py against the ledger.
use prd2tsd.Prelude.{
  ℕ, zero, suc, ◌+◌, ◌≤◌, String, Bool, true, false, not, ◌∷◌, ◌≡◌, refl, arith, ltb, leb, ◌=?◌,
  ◌&&◌, ◌||◌, if◌then◌else◌, if_both, rounded_to, List, [], keep_if,
}
use prd2tsd.Budget.{
  BudgetConfig, CallLog, week_start, BudgetStore, Environment, get_budget_config, get_cost,
  get_period_cost, period_start, budget_of, reaches, check, record_usage,
}

-- What a new row adds to the cost of a workspace since the start of a period.
abbrev pub counted : String → ℕ → String → ℕ → ℕ → ℕ
counted v start w now cost = if w =? v && leb start now then rounded_to 1000 cost else 0

-- A cost that is written down raises the cost of its own workspace's period by itself, if the period
-- has started by then, and no other.
pub record_usage_counts :
    (up : Bool) (now : ℕ) (w : String) (cost : ℕ) (s : BudgetStore) (v : String) (start : ℕ)
    → get_cost v start (record_usage up now w cost s).ledger
      ≡ (if w =? "" || not up then 0 else counted v start w now cost) + get_cost v start s.ledger
unfolding record_usage get_cost
record_usage_counts up now w cost s v start = ground arith

abbrev pub nonzero_or : ℕ → ℕ → ℕ
nonzero_or d zero = d
nonzero_or d (suc n) = suc n

abbrev pub total : List CallLog → ℕ
total [] = 0
total (l ∷ ledger) = l.cost + total ledger

module _ (env : Environment) where
  -- The amount that a configuration sets for its period, and the default one where that is 0.
  abbrev pub limit_of : BudgetConfig → ℕ
  limit_of config =
      nonzero_or env.default_monthly
        (if config.budget_period =? "weekly" then config.weekly_budget else config.monthly_budget)

  -- What the rows of a workspace cost together since the start of the week or of the month.
  abbrev pub spent_since : ℕ → String → String → List CallLog → ℕ
  spent_since now w period ledger =
      let start = if period =? "weekly" then week_start now else env.month_start now in
      total (keep_if (λ l. l.workspace_id =? w && leb start l.created_at) ledger)

  config_kept :
      (up up' : Bool) (at : ℕ) (w v : String) (cost : ℕ) (s : BudgetStore)
      → get_budget_config env up' v (record_usage up at w cost s) ≡ get_budget_config env up' v s
  unfolding record_usage get_budget_config
  config_kept up up' at w v cost s =
      if_both (λ s'. get_budget_config env up' v s' ≡ get_budget_config env up' v s)
        (w =? "" || not (ltb 0 cost) || not up) s
        (record s {
          ledger =
              record { workspace_id = w; cost = rounded_to 1000 cost; created_at = at } ∷ s.ledger;
        })
        refl refl

  cost_grows :
      (up up' : Bool) (at now : ℕ) (w v period : String) (cost : ℕ) (s : BudgetStore)
      → get_period_cost env up' now v period s
        ≤ get_period_cost env up' now v period (record_usage up at w cost s)
  unfolding get_period_cost
  cost_grows up up' at now w v period cost s =
      let counts = record_usage_counts up at w cost s v (period_start env period now) in
      ground arith

  reaches_mono :
      (threshold cost cost' budget : ℕ)
      → cost ≤ cost'
      → reaches threshold cost budget ≡ true
      → reaches threshold cost' budget ≡ true
  reaches_mono threshold cost cost' budget le h = ground arith

  -- What `check` says of a configuration and a cost.
  more_cost :
      (config : BudgetConfig) (cost cost' : ℕ)
      → cost ≤ cost'
      → let over = λ (c : ℕ). reaches 10000 c (budget_of env config) in
        let down = λ (c : ℕ).
          config.auto_downgrade && reaches config.alert_threshold c (budget_of env config) in
        (down cost ≡ true → down cost' ≡ true)
        × (not (over cost) ≡ false → not (over cost') ≡ false)
  more_cost config cost cost' le =
      let budget : ℕ = budget_of env config in
      let over = reaches_mono 10000 cost cost' budget le in
      let reached = reaches_mono config.alert_threshold cost cost' budget le in ground arith

  -- More cost never turns a downgrade off, and never brings a workspace back within its budget.
  pub record_usage_mono :
      (up : Bool) (at now : ℕ) (w v : String) (cost : ℕ) (s : BudgetStore)
      → let before = check env true true now v s in
        let after = check env true true now v (record_usage up at w cost s) in
        (before.should_downgrade ≡ true → after.should_downgrade ≡ true)
        × (before.within_budget ≡ false → after.within_budget ≡ false)
  unfolding check
  record_usage_mono up at now w v cost s =
      let config : BudgetConfig = get_budget_config env true v s in
      let s' : BudgetStore = record_usage up at w cost s in
      let period : String = config.budget_period in
      let grows = cost_grows up true at now w v period cost s in
      rw (config_kept up true at w v cost s) (
        more_cost config (get_period_cost env true now v period s)
          (get_period_cost env true now v period s') grows)
