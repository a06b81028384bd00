-- ===== src/Models/Examples.antt =====
-- A run of the choice of a rule: a boost beats the base rule while its window is open.
use nexus_spark_lib.Base.{
  ℕ, arith, false, ◌≡◌, Text, Bool, true, Option, none, some, [], ◌∷◌, codes, text_eq,
  if◌then◌else◌,
}
use nexus_spark_lib.Models.Predicate.{eval_fuelled}
use nexus_spark_lib.Models.Predicate.Fuel.{eval_fuelled_total}
use nexus_spark_lib.Models.Fx.{FxRateEntry}
use nexus_spark_lib.Models.EntityStore.{EntityStorePresence}
use nexus_spark_lib.Models.Materialization.{
  PolicyRule, MaterializationPolicy, hot, cold, boost, base,
}

abbrev base_rule : PolicyRule
base_rule = record {
  rule_id = codes "r1";
  tenant_id = codes "t";
  scope = codes "account";
  predicate = codes "TRUE";
  target_level = cold;
  priority = 10;
  rule_type = base;
  valid_from = none;
  valid_until = none;
}

abbrev boost_rule : PolicyRule
boost_rule = record base_rule {
  rule_id = codes "r2";
  target_level = hot;
  rule_type = boost;
  valid_from = some 5;
  valid_until = some 9;
}

abbrev policy : MaterializationPolicy
policy = record {
  rules_by_scope =
      λ tenant_id scope. if text_eq tenant_id (codes "t") then base_rule ∷ boost_rule ∷ [] else [];
}

abbrev always : Text → Option Bool
always predicate = some true

abbrev nested : Text
nested = codes "NOT (a = 1 OR b BETWEEN 1 AND 2 AND FALSE)"

eval_fuelled_total_example : (t : Option Bool) × (eval_fuelled always 43 nested ≡ some t)
eval_fuelled_total_example = eval_fuelled_total always 43 nested (omega arith)

abbrev fx_entry : ℕ → ℕ → FxRateEntry
fx_entry rate valid_from = record {
  rate = rate;
  valid_from = valid_from;
  valid_until = none;
  is_approximate = false;
}

abbrev presence : Text × Text → Option EntityStorePresence
presence (tenant_id, id) = some record {
  tenant_id = tenant_id;
  cdm_entity_id = id;
  es_present = true;
  neo4j_present = false;
  ts_present = false;
}

abbrev absent : Text × Text → Option EntityStorePresence
absent key = none

abbrev entity : Text × Text
entity = (codes "t", codes "a")
