-- ===== src/Stage0.antt =====
-- nexus_spark_lib/transform/stage0_materialization.py: the type and the tier of a raw record. The
-- JSON and DataFrame columns are the values that they hold.
pub mod Values
mod Examples
use nexus_spark_lib.Base.{
  Text, ℕ, Bool, true, false, not, ◌||◌, ◌&&◌, Option, none, some, List, [], ◌∷◌, codes, keep, map,
  if◌then◌else◌, text_eq, upper, lower, strip, in_texts, or_text, or_default, Dict, dict_get,
}
use nexus_spark_lib.Stage3.Context.{Scalar, text, str}
use nexus_spark_lib.Models.Predicate.{Truth}
use nexus_spark_lib.Models.Materialization.{
  MaterializationLevel, hot, warm, cold, MaterializationRuntimeConfig, MaterializationDecision,
  evaluate_runtime,
}
use nexus_spark_lib.Stage1.Fields.{Item}
use nexus_spark_lib.Stage1.Rows.{RawRecord, first_found}

-- `get_cdm_entity_type` by tenant, key and table; `none` is also an exception.
abbrev pub EntityTypes : Type 0
EntityTypes = Text → Text → Text → Option Text

abbrev known_type : Option Text → Option Text
known_type none = none
known_type (some t) = if text_eq t [] || text_eq t (codes "unknown") then none else some t

unfoldable pub resolve_cdm_type : EntityTypes → RawRecord → Text
unfolding first_found
resolve_cdm_type mapping r =
    or_default
      (first_found (λ key. known_type (mapping r.tenant_id key r.source_table)) r.connector_id
        r.source_system)
      (codes "unknown")

-- A DELETE, in either case of letters, is judged by its image before.
unfoldable pub raw_payload : RawRecord → List Item
unfolding upper
raw_payload r =
    if text_eq (upper (or_text r.source_op (codes "INSERT"))) (codes "DELETE")
    then or_default r.before_payload []
    else or_default r.after_payload []

abbrev pub gate_null_like : List Text
gate_null_like = codes "" ∷ codes "null" ∷ codes "none" ∷ codes "n/a" ∷ codes "na" ∷ []

unfoldable pub is_null_like : Scalar → Bool
unfolding in_texts lower strip
is_null_like v = in_texts (lower (strip (str v))) gate_null_like

abbrev add_value : Text → Option Scalar → Dict Scalar → Dict Scalar
add_value k none values = values
add_value k (some v) values = if is_null_like v then values else (k, v) ∷ values

unfoldable pub present_values : List Item → Dict Scalar
unfolding is_null_like
present_values [] = []
present_values ((k, v) ∷ items) = add_value k v (present_values items)

-- field_values.setdefault("source_ts", str(source_ts))
abbrev pub with_default : Option Text → Option Scalar → Dict Scalar → Dict Scalar
with_default none present values = values
with_default (some ts) (some v) values = values
with_default (some ts) none values = (codes "source_ts", text ts) ∷ values

unfoldable pub field_values : RawRecord → Dict Scalar
unfolding present_values raw_payload
field_values r =
    let values = present_values (raw_payload r) in
    with_default r.source_ts (dict_get (codes "source_ts") values) values

pub record GatedRecord : Type 0 where
  pub raw : RawRecord
  pub cdm_entity_type : Text
  pub materialization_level : MaterializationLevel
  pub materialization_rule_id : Option Text

module _ (mapping : EntityTypes) (test : Dict Scalar → Text → Truth) (now : ℕ)
    (config : MaterializationRuntimeConfig) where
  -- The tests at the leaves of the predicates read the record's values.
  unfoldable pub gate_record : RawRecord → GatedRecord
  unfolding resolve_cdm_type field_values evaluate_runtime
  gate_record r =
      let cdm_type = resolve_cdm_type mapping r in
      let decision = evaluate_runtime (test (field_values r)) now config r.tenant_id cdm_type in
      record {
        raw = r;
        cdm_entity_type = cdm_type;
        materialization_level = decision.level;
        materialization_rule_id = decision.applied_rule_id;
      }

  abbrev pub is_warm_or_hot : MaterializationLevel → Bool
  is_warm_or_hot cold = false
  is_warm_or_hot level = true

  unfoldable pub drop_cold : List GatedRecord → List GatedRecord
  drop_cold rows = keep (λ g. is_warm_or_hot g.materialization_level) rows
