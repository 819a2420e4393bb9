-- ===== src/Budget.antt =====
-- app/llm_gateway/budget_controller.py. Money is in billionths of a dollar, a threshold in
-- ten-thousandths; a usage ratio is the exact fraction, and what a report rounds is in ten-thousandths.
-- The columns of the tables keep fewer decimals than that. The clock counts seconds since 1970 in
-- UTC, and the start of a calendar month is a function of it. Whether the database answers is an
-- input of each call.
pub mod Flags
pub mod Settings
mod Tests
use prd2tsd.Prelude.{
  ℕ, ◌+◌, ◌-◌, ◌*◌, ◌/◌, ◌%◌, String, Option, none, some, Bool, true, false, not, List, [], ◌∷◌,
  ltb, leb, ◌=?◌, ◌==◌, ◌&&◌, ◌||◌, if◌then◌else◌, rounded_to,
}
use prd2tsd.Prelude.Int.{ℤ, pos, negsuc}
use prd2tsd.Prelude.Dict.{Dict, lookup, insert}
use prd2tsd.Evaluation.{round_div}

pub record BudgetConfig : Type 0 where
  pub monthly_budget : ℕ
  pub weekly_budget : ℕ
  pub budget_period : String
  pub alert_threshold : ℕ
  pub auto_downgrade : Bool

-- A configuration as the columns keep it: amounts in cents, the threshold in hundredths.
abbrev pub as_columns : BudgetConfig → BudgetConfig
as_columns config = record config {
  monthly_budget = rounded_to 10000000 config.monthly_budget;
  weekly_budget = rounded_to 10000000 config.weekly_budget;
  alert_threshold = rounded_to 100 config.alert_threshold;
}

-- A row of the call log, whose cost is in millionths of a dollar.
pub record CallLog : Type 0 where
  pub workspace_id : String
  pub cost : ℕ
  pub created_at : ℕ

pub record BudgetStore : Type 0 where
  pub configs : Dict BudgetConfig
  pub ledger : List CallLog

-- `settings`, and the start of a calendar month.
pub record Environment : Type 0 where
  pub default_monthly : ℕ
  pub default_threshold : ℕ
  pub default_downgrade : Bool
  pub month_start : ℕ → ℕ

abbrev pub day : ℕ
day = 86400

-- The start of a week, which is a Monday; 1 January 1970 was a Thursday.
abbrev pub week_start : ℕ → ℕ
week_start now = (now / day - (now / day + 3) % 7) * day

-- `get_cost`: the sum since the start of the period.
unfoldable pub get_cost : String → ℕ → List CallLog → ℕ
get_cost workspace_id start [] = 0
get_cost workspace_id start (l ∷ ledger) =
    let rest = get_cost workspace_id start ledger in
    if l.workspace_id =? workspace_id && leb start l.created_at then l.cost + rest else rest

-- `threshold <= usage_ratio`, as fractions; the ratio of an empty budget is 0.
abbrev pub reaches : ℕ → ℕ → ℕ → Bool
reaches threshold cost budget =
    if ltb 0 budget then leb (threshold * budget) (cost * 10000) else threshold == 0

pub record BudgetCheck : Type 0 where
  pub within_budget : Bool
  pub usage_ratio : ℕ
  pub should_downgrade : Bool
  pub alert : Bool
  pub period : String
  pub started : ℕ

-- `record_usage`
unfoldable pub record_usage : Bool → ℕ → String → ℕ → BudgetStore → BudgetStore
record_usage up now workspace_id cost s =
    if workspace_id =? "" || not (ltb 0 cost) || not up then s else record s {
      ledger =
          record { workspace_id = workspace_id; cost = rounded_to 1000 cost; created_at = now }
          ∷ s.ledger;
    }

pub record Updates : Type 0 where
  pub new_monthly : Option ℕ
  pub new_weekly : Option ℕ
  pub new_threshold : Option ℕ
  pub new_downgrade : Option Bool
  pub new_period : Option String

abbrev pub updated : {A : Type 0} → Option A → A → A
updated none old = old
updated (some new) old = new

abbrev pub with_updates : Updates → BudgetConfig → BudgetConfig
with_updates u config = record {
  monthly_budget = updated u.new_monthly config.monthly_budget;
  weekly_budget = updated u.new_weekly config.weekly_budget;
  budget_period = updated u.new_period config.budget_period;
  alert_threshold = updated u.new_threshold config.alert_threshold;
  auto_downgrade = updated u.new_downgrade config.auto_downgrade;
}

pub record Report : Type 0 where
  pub report_period : String
  pub period_cost : ℕ
  pub monthly_cost : ℕ
  pub report_ratio : ℕ
  pub remaining_budget : ℤ

abbrev pub difference : ℕ → ℕ → ℤ
difference a b = if leb b a then pos (a - b) else negsuc (b - a - 1)

module _ (env : Environment) where
  -- `_default_config`
  abbrev pub default_config : BudgetConfig
  default_config = record {
    monthly_budget = env.default_monthly;
    weekly_budget = 0;
    budget_period = "monthly";
    alert_threshold = env.default_threshold;
    auto_downgrade = env.default_downgrade;
  }

  -- `_period_start`
  abbrev pub period_start : String → ℕ → ℕ
  period_start period now = if period =? "weekly" then week_start now else env.month_start now

  -- A stored configuration has every key, and so replaces the default one.
  abbrev pub config_or : Option BudgetConfig → BudgetConfig
  config_or none = default_config
  config_or (some config) = config

  -- `get_budget_config`
  unfoldable pub get_budget_config : Bool → String → BudgetStore → BudgetConfig
  get_budget_config up workspace_id s =
      if workspace_id =? "" || not up
      then default_config
      else config_or (lookup workspace_id s.configs)

  -- `get_period_cost`: an unreadable ledger counts as no use.
  unfoldable pub get_period_cost : Bool → ℕ → String → String → BudgetStore → ℕ
  get_period_cost up now workspace_id period s =
      if workspace_id =? "" || not up
      then 0
      else get_cost workspace_id (period_start period now) s.ledger

  -- `float(config.get(budget_key) or settings.BUDGET_DEFAULT_MONTHLY_USD)`
  abbrev pub budget_of : BudgetConfig → ℕ
  budget_of config =
      let budget =
        if config.budget_period =? "weekly" then config.weekly_budget else config.monthly_budget in
      if budget == 0 then env.default_monthly else budget

  -- `check`: whether the configuration and the ledger can be read.
  unfoldable pub check : Bool → Bool → ℕ → String → BudgetStore → BudgetCheck
  check config_up ledger_up now workspace_id s =
      let config = get_budget_config config_up workspace_id s in
      let cost = get_period_cost ledger_up now workspace_id config.budget_period s in
      let budget = budget_of config in
      let over = reaches 10000 cost budget in
      let reached = reaches config.alert_threshold cost budget in
      record {
        within_budget = not over;
        usage_ratio = if ltb 0 budget then round_div (cost * 10000) budget else 0;
        should_downgrade = config.auto_downgrade && reached;
        alert = reached && not over;
        period = config.budget_period;
        started = period_start config.budget_period now;
      }

  -- `check_and_record`
  unfoldable pub check_and_record :
      Bool → ℕ → ℕ → String → ℕ → BudgetStore → BudgetCheck × BudgetStore
  check_and_record up now later workspace_id cost s =
      let s' = record_usage up now workspace_id cost s in (check up up later workspace_id s', s')

  -- `set_budget_config`: `none` if the period is neither of the two, or the table does not take the
  -- row. The answer is the configuration before the columns round it.
  unfoldable pub set_budget_config :
      Bool → Bool → String → Updates → BudgetStore → Option (BudgetConfig × BudgetStore)
  set_budget_config read_up write_up workspace_id u s =
      let config = with_updates u (get_budget_config read_up workspace_id s) in
      let saved = record s { configs = insert workspace_id (as_columns config) s.configs } in
      if (config.budget_period =? "weekly" || config.budget_period =? "monthly") && write_up
      then some (config, saved)
      else none

  -- `get_monthly_report`, without the fields of the configuration that it repeats.
  pub get_monthly_report : Bool → ℕ → String → BudgetStore → Report
  get_monthly_report up now workspace_id s =
      let config = get_budget_config up workspace_id s in
      let cost = get_period_cost up now workspace_id config.budget_period s in
      let budget = budget_of config in
      record {
        report_period = config.budget_period;
        period_cost = cost;
        monthly_cost = get_period_cost up now workspace_id "monthly" s;
        report_ratio = if ltb 0 budget then round_div (cost * 10000) budget else 0;
        remaining_budget = difference budget cost;
      }
