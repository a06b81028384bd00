-- ===== src/Broadcast/Examples.antt =====
-- Runs of the theorems on the broadcasts.
use nexus_spark_lib.Base.{ℕ, ◌≡◌, refl, none, some, [], ◌∷◌}
use nexus_spark_lib.Models.Materialization.{MaterializationRuntimeConfig}
use nexus_spark_lib.Models.Survivorship.{SurvivorshipRuleSet}
use nexus_spark_lib.Broadcast.{Manager, refresh_error, Load, refresh_if_stale}
use nexus_spark_lib.Broadcast.Fresh.{
  IsRefreshed, refresh_if_stale-IsRefreshed, initialised, batch, run, IsReady, run-IsReady,
}

abbrev config : MaterializationRuntimeConfig
config = record { assignments = λ tenant_id cdm_entity_type. none; policy = none }

abbrev config_at : ℕ → Load MaterializationRuntimeConfig
config_at t = record { loaded = some config; at = t }

abbrev rules_at : ℕ → Load SurvivorshipRuleSet
rules_at t = record { loaded = some []; at = t }

abbrev no_rules : Load SurvivorshipRuleSet
no_rules = record { loaded = none; at = 0 }

abbrev held : ℕ → Manager
held t = record {
  policy_bc = some config;
  survivorship_bc = some [];
  policy_loaded_at = some t;
  survivorship_loaded_at = some 10;
}

-- The policy is stale and is loaded; the rules are stale and their load fails.
half_way : refresh_if_stale 100 30 60 (config_at 101) no_rules (held 10) ≡ refresh_error (held 101)
unfolding refresh_if_stale
half_way = refl

refresh_if_stale-IsRefreshed_example :
    IsRefreshed 100 30 60
      (config_at 101)
      no_rules
      (held 10)
      (refresh_if_stale 100 30 60 (config_at 101) no_rules (held 10))
refresh_if_stale-IsRefreshed_example =
    refresh_if_stale-IsRefreshed 100 30 60 (config_at 101) no_rules (held 10)

-- A first load that fails, a batch that loads both, and a failure after it.
run-IsReady_example : IsReady (
    run
      (batch 100 30 60 (config_at 101) no_rules ∷ [])
      (record (held 8) { survivorship_loaded_at = some 9 }))
unfolding refresh_if_stale run
run-IsReady_example =
    run-IsReady (initialised (config_at 1) no_rules ∷ [])
      (batch 100 30 60 (config_at 101) no_rules ∷ []) 7 5 60 (config_at 8) (rules_at 9)
      (record (held 8) { survivorship_loaded_at = some 9 }) refl
