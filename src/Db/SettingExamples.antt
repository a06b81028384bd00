-- ===== src/Db/SettingExamples.antt =====
-- Runs of the theorems on the loaders of policies and rules.
use nexus_spark_lib.Base.{
  strip, keep, sort_by, text_ltb, Text, ◌≡◌, refl, true, none, some, Option, [], ◌∷◌, List, codes,
  arith, is_some, text_eq, count_of, ◌==◌,
}
use nexus_spark_lib.Models.Predicate.{Truth}
use nexus_spark_lib.Models.Materialization.{
  MaterializationPolicy, hot, cold, get_rules, evaluate, evaluate_runtime,
}
use nexus_spark_lib.Models.Materialization.Choice.{IsDecision}
use nexus_spark_lib.Models.Survivorship.{get_rule, source_priority}
use nexus_spark_lib.Db.Settings.Rules.{RuleRow, load_survivorship_rules}
use nexus_spark_lib.Db.Settings.{
  PolicyRow, append_rule, rule_at, empty_policy, load_materialization_policy, AssignmentRow,
  load_materialization_runtime_config,
}
use nexus_spark_lib.Db.Settings.Policies.{table_policy, evaluate-load_materialization_policy}
use nexus_spark_lib.Db.Settings.Errors.{load_materialization_policy-refused, is_refused}

abbrev expired : PolicyRow
expired = record {
  rule_id = codes "1";
  tenant_id = codes "t";
  scope = codes "person";
  predicate = [];
  target_level = codes "cold";
  priority = 9;
  rule_type = codes "manual";
  valid_from = none;
  valid_until = some 5;
}

abbrev open_row : PolicyRow
open_row = record expired {
  rule_id = codes "2";
  target_level = codes "hot";
  priority = 1;
  valid_until = none;
}

abbrev rows : List PolicyRow
rows = expired ∷ open_row ∷ []

abbrev loaded : MaterializationPolicy
loaded = append_rule (rule_at open_row hot) empty_policy

abbrev always : Text → Truth
always s = some true

-- The expired rule is not loaded, and the other one decides.
hot_by_open : (evaluate always 8 loaded (codes "t") (codes "person")).level ≡ hot
unfolding evaluate sort_by keep text_eq strip
hot_by_open = refl

evaluate-load_materialization_policy_example :
    IsDecision always 8
      (get_rules (table_policy rows) (codes "t") (codes "person"))
      (evaluate always 8 loaded (codes "t") (codes "person"))
unfolding load_materialization_policy text_eq text_ltb
evaluate-load_materialization_policy_example =
    evaluate-load_materialization_policy 6 8 (omega arith) rows loaded refl always (codes "t")
      (codes "person")

load_materialization_policy-refused_example :
    is_some (load_materialization_policy 6 (record open_row { target_level = codes "HOT" } ∷ []))
    ≡ (count_of (is_refused 6) (record open_row { target_level = codes "HOT" } ∷ []) == 0)
load_materialization_policy-refused_example =
    load_materialization_policy-refused 6 (record open_row { target_level = codes "HOT" } ∷ [])

abbrev on_loaded : {A B : Type 0} → (A → B) → Option A → Option B
on_loaded f none = none
on_loaded f (some a) = some (f a)

abbrev rule_row : Text → RuleRow
rule_row kind = record {
  tenant_id = codes "t";
  cdm_entity_type = codes "person";
  attribute_name = codes "email";
  rule_type = kind;
  priority_sources = some (codes "crm" ∷ []);
  fallback_rule_type = [];
  superseded_at = none;
}

-- The second row with the key wins, and an unknown type ends the load.
second_rule :
    on_loaded
      (λ rules. (get_rule rules (codes "t") (codes "person") (codes "email")).rule_type)
      (load_survivorship_rules
        (rule_row (codes "manual") ∷ rule_row (codes "source_priority") ∷ []))
    ≡ some source_priority
unfolding load_survivorship_rules get_rule text_eq
second_rule = refl

no_rules : load_survivorship_rules (rule_row (codes "newest") ∷ []) ≡ none
unfolding load_survivorship_rules text_eq
no_rules = refl

abbrev assignment : AssignmentRow
assignment = record {
  tenant_id = codes "t";
  cdm_entity_type = codes "*";
  materialization_level = codes "cold";
  assigned_by = [];
}

-- An assignment goes before the policy.
cold_by_assignment :
    on_loaded
      (λ config. (evaluate_runtime always 8 config (codes "t") (codes "person")).level)
      (load_materialization_runtime_config 6 (some (assignment ∷ [])) (some rows))
    ≡ some cold
unfolding load_materialization_runtime_config evaluate_runtime text_eq text_ltb
cold_by_assignment = refl
