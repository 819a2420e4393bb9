-- ===== src/Budget/Settings.antt =====
-- `set_budget_config` of app/llm_gateway/budget_controller.py against the reads that follow it.
use prd2tsd.Prelude.{
  String, some, Bool, true, false, ◌≡◌, ◌≢◌, ◌⊎◌, refl, arith, if◌then◌else◌, eq_iff, ap, ◌∙◌, sym,
  text_other, rounded_to,
}
use prd2tsd.Prelude.Dict.{insert, lookup-insert_same, lookup-insert_other}
use prd2tsd.Budget.{
  BudgetConfig, as_columns, BudgetStore, Environment, Updates, with_updates, default_config,
  get_budget_config, set_budget_config,
}

module _ (env : Environment) where
  -- The reads after a configuration was written.
  written_read :
      (w v : String) (config : BudgetConfig) (s : BudgetStore)
      → w ≢ ""
      → v ≢ w
      → let s' : BudgetStore = record s { configs = insert w config s.configs } in
        (get_budget_config env true w s' ≡ config)
        × (get_budget_config env true v s' ≡ get_budget_config env true v s)
  unfolding get_budget_config
  written_read w v config s named other = (
    rw (lookup-insert_same w config s.configs) (rw (text_other w "" named) refl),
    rw (lookup-insert_other w v config s.configs (λ e. other (sym e))) refl,
  )

  set_cases :
      (read_up : Bool) (w : String) (u : Updates) (s s' : BudgetStore) (config : BudgetConfig)
      → set_budget_config env read_up true w u s ≡ some (config, s')
      → (config ≡ with_updates u (get_budget_config env read_up w s))
        × (s' ≡ record s { configs = insert w (as_columns config) s.configs })
        × ((config.budget_period ≡ "weekly") ⊎ (config.budget_period ≡ "monthly"))
  unfolding set_budget_config
  set_cases read_up w u s s' config h =
      ground (arith, eq_iff config.budget_period "weekly", eq_iff config.budget_period "monthly")

  read_or :
      (up : Bool) (w : String) (s : BudgetStore)
      → get_budget_config env up w s
        ≡ (if up then get_budget_config env true w s else default_config env)
  unfolding get_budget_config
  read_or true w s = refl
  read_or false w s = ground arith

  -- After a configuration of a workspace that has a name was saved, the next read of the workspace gives
  -- it with its amounts rounded to cents and its threshold to hundredths, and no other workspace's
  -- read changes. What is saved has every setting that was given, and those that were not given as
  -- they were read before; if that read failed they are the default ones, even where the store holds
  -- others. Only "weekly" and "monthly" are saved.
  pub set_budget_config_lem :
      (read_up : Bool) (w v : String) (u : Updates) (s s' : BudgetStore) (config : BudgetConfig)
      → w ≢ ""
      → v ≢ w
      → set_budget_config env read_up true w u s ≡ some (config, s')
      → (get_budget_config env true w s' ≡ record config {
        monthly_budget = rounded_to 10000000 config.monthly_budget;
        weekly_budget = rounded_to 10000000 config.weekly_budget;
        alert_threshold = rounded_to 100 config.alert_threshold;
      })
        × (get_budget_config env true v s' ≡ get_budget_config env true v s)
        × (config
            ≡ with_updates u
                (if read_up then get_budget_config env true w s else default_config env))
        × ((config.budget_period ≡ "weekly") ⊎ (config.budget_period ≡ "monthly"))
  unfolding set_budget_config get_budget_config
  set_budget_config_lem read_up w v u s s' config named other h =
      let (same, written, period) = set_cases read_up w u s s' config h in
      let (own, others) = written_read w v (as_columns config) s named other in
      (
        rw written own,
        rw written others,
        same ∙ ap (λ old. with_updates u old) (read_or read_up w s),
        period,
      )
