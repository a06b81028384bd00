-- ===== src/Stage0/Examples.antt =====
-- Runs of the theorems on one raw record at the gate.
use nexus_spark_lib.Base.{
  keep, any, text_eq, Text, ◌≡◌, refl, Option, none, some, List, [], ◌∷◌, codes, dict_get,
}
use nexus_spark_lib.Stage3.Context.{text}
use nexus_spark_lib.Models.Materialization.{cold, MaterializationRuntimeConfig}
use nexus_spark_lib.Stage1.Fields.{Item}
use nexus_spark_lib.Stage1.Rows.{RawRecord}
use nexus_spark_lib.Stage0.{field_values, gate_record, drop_cold}
use nexus_spark_lib.Stage0.Values.{IsJudged, IsRead, dict_get-field_values}

abbrev deleted : RawRecord
deleted = record {
  tenant_id = codes "t";
  connector_id = codes "crm";
  source_system = codes "salesforce";
  source_table = codes "accounts";
  source_record_id = codes "1";
  source_op = codes "delete";
  source_ts = some (codes "2024");
  after_payload = none;
  before_payload = some (
      (codes "industry", some (text (codes "Health")))
      ∷ (codes "phone", some (text (codes " N/A ")))
      ∷ []);
}

-- A source system that is mapped, where the connector is not.
abbrev mapping : Text → Text → Text → Option Text
mapping tenant_id key table = elim key [ [] ↦ none | c ∷ rest ↦ some (codes "company") ]

values_run :
    field_values deleted
    ≡ (codes "source_ts", text (codes "2024")) ∷ (codes "industry", text (codes "Health")) ∷ []
unfolding field_values dict_get text_eq any
values_run = refl

dict_get-field_values_example :
    (image : List Item) × IsJudged deleted image
    × IsRead
        (codes "phone")
        image
        deleted.source_ts
        (dict_get (codes "phone") (field_values deleted))
dict_get-field_values_example = dict_get-field_values deleted (codes "phone")

abbrev config : MaterializationRuntimeConfig
config = record {
  assignments = λ tenant_id cdm_entity_type.
      some
        record { cdm_entity_type = cdm_entity_type; level = cold; assigned_by = codes "default" };
  policy = none;
}

-- The record of a COLD type is dropped.
cold_dropped :
    drop_cold mapping
      (λ fields leaf. none)
      0
      config
      (gate_record mapping (λ fields leaf. none) 0 config deleted ∷ [])
    ≡ []
unfolding drop_cold gate_record keep
cold_dropped = refl
