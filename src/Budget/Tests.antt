-- ===== src/Budget/Tests.antt =====
-- Two workspaces, one with a budget of its own.
use prd2tsd.Prelude.{true, false, none, some, [], ◌∷◌, ◌≡◌, ◌⊎◌, refl, arith, eq_iff}
use prd2tsd.Prelude.Dict.{insert}
use prd2tsd.Budget.{
  BudgetConfig, as_columns, BudgetStore, Environment, Updates, with_updates, default_config,
  get_budget_config, set_budget_config,
}
use prd2tsd.Budget.Settings.{set_budget_config_lem}

abbrev env : Environment
env = record {
  default_monthly = 500000000000;
  default_threshold = 9000;
  default_downgrade = true;
  month_start = λ now. now;
}

abbrev own : BudgetConfig
own = record {
  monthly_budget = 100000000000;
  weekly_budget = 50000000000;
  budget_period = "weekly";
  alert_threshold = 8000;
  auto_downgrade = true;
}

abbrev store : BudgetStore
store = record {
  configs = ("w1", own) ∷ [];
  ledger =
      record { workspace_id = "w1"; cost = 30000000000; created_at = 1000000 }
      ∷ record { workspace_id = "w1"; cost = 20000000000; created_at = 0 }
      ∷ [];
}

abbrev updates : Updates
updates = record {
  new_monthly = none;
  new_weekly = some 70005000000;
  new_threshold = none;
  new_downgrade = none;
  new_period = none;
}

abbrev saved : BudgetConfig
saved = with_updates updates (default_config env)

abbrev after : BudgetStore
after = record store { configs = ("w1", as_columns saved) ∷ [] }

saves : set_budget_config env false true "w1" updates store ≡ some (saved, after)
unfolding set_budget_config get_budget_config insert
saves = refl

-- The database fails to read and then writes: the settings that were not given are the default ones.
set_budget_config_lem_example :
    (get_budget_config env true "w1" after ≡ as_columns saved)
    × (get_budget_config env true "w2" after ≡ get_budget_config env true "w2" store)
    × (saved ≡ with_updates updates (default_config env))
    × ((saved.budget_period ≡ "weekly") ⊎ (saved.budget_period ≡ "monthly"))
set_budget_config_lem_example =
    set_budget_config_lem env false "w1" "w2" updates store after saved
      (λ e. ground (arith, (eq_iff "w1" "").1 e)) (λ e. ground (arith, (eq_iff "w2" "w1").1 e))
      saves
