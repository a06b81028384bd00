-- ===== src/Stage2/RowExamples.antt =====
-- Runs of the theorems on one row of Stage 2: its resolution, its foreign keys, and the index of a
-- broadcast.
use nexus_spark_lib.Base.{
  any, sort_by, dict_get, keep, Text, ℕ, ◌≡◌, refl, true, none, some, [], ◌∷◌, codes, text_eq, Dict,
}
use nexus_spark_lib.Stage3.Context.{extract_field_value, text, Field, plain, array}
use nexus_spark_lib.Hashing.{er_deterministic_lookup_key, Digest}
use nexus_spark_lib.Stage2.Signals.{ErIndex, Thresholds, run_signal_a}
use nexus_spark_lib.Stage2.Rows.{ResolveRow, resolve_row}
use nexus_spark_lib.Stage2.Rows.Placed.{IsPlaced, resolve_row-IsPlaced}
use nexus_spark_lib.Stage2.ForeignKeys.{
  RecordKey, RecordIndex, lookup_target, FkField, entry, infer_fk_target_entity_type,
  resolve_fk_targets_in_fields,
}
use nexus_spark_lib.Stage2.ForeignKeys.Targets.{IsTarget, lookup_target-IsTarget}
use nexus_spark_lib.Stage2.Broadcast.{ErResolveIndex, signal_index, register_entity_fields}
use nexus_spark_lib.Stage2.Broadcast.Found.{registered, run_signal_a-register_entity_fields}

-- A digest that no lookup key of the examples holds.
abbrev digest : Digest
digest s = codes "#"

abbrev thresholds : Thresholds
thresholds = record { auto_apply_threshold = none; review_lower_bound = none; weights = [] }

abbrev row : ResolveRow
row = record {
  tenant_id = codes "t";
  cdm_entity_type = codes "person";
  connector_id = codes "crm";
  source_system = [];
  source_table = codes "contacts";
  source_record_id = codes "1";
  source_op = codes "UPDATE";
  fields = [];
  changed = array [];
  materialization_level = codes "hot";
  blocking_key = some (codes "k");
}

abbrev er_index : ErIndex
er_index = record {
  snapshot = (codes "src:t\0crm\0contacts\01", codes "g") ∷ [];
  deterministic_columns = λ tenant_id cdm_entity_type. [];
  thresholds = λ tenant_id cdm_entity_type. thresholds;
}

-- A candidate in the review band.
abbrev score : Text → ℕ
score id = 8000

abbrev other_row : ResolveRow
other_row = record row { source_record_id = codes "2" }

review_run :
    (resolve_row digest er_index score (codes "h" ∷ []) none other_row).is_provisional ≡ true
unfolding resolve_row text_eq dict_get sort_by keep
review_run = refl

resolve_row-IsPlaced_example :
    IsPlaced digest er_index score
      (codes "h" ∷ [])
      none
      other_row
      (resolve_row digest er_index score (codes "h" ∷ []) none other_row)
resolve_row-IsPlaced_example =
    resolve_row-IsPlaced digest er_index score (codes "h" ∷ []) none other_row

abbrev key : RecordKey
key = record {
  tenant_id = codes "t";
  cdm_entity_type = codes "Party";
  source_system = codes "erp";
  source_record_id = codes "9";
}

abbrev records : RecordIndex
records =
    (record key { source_system = codes "crm"; cdm_entity_type = codes "party" }, codes "p") ∷ []

abbrev order_fields : Dict FkField
order_fields =
    (
      codes "buyer_id",
      entry (record {
        value = some (text (codes "9"));
        attribute_kind = [];
        fk_target_entity_type = [];
        resolved = none;
      }),
    )
    ∷ []

buyer_is_party : infer_fk_target_entity_type (codes "buyer_id") [] ≡ some (codes "party")
unfolding infer_fk_target_entity_type keep text_eq
buyer_is_party = refl

buyer_run :
    resolve_fk_targets_in_fields (codes "t") (codes "erp") records order_fields
    ≡ (
      codes "buyer_id",
      entry (record {
        value = some (text (codes "9"));
        attribute_kind = [];
        fk_target_entity_type = [];
        resolved = some (some (codes "p"));
      }),
    )
      ∷ []
unfolding resolve_fk_targets_in_fields text_eq keep
buyer_run = refl

lookup_target-IsTarget_example : IsTarget key records (lookup_target records key)
lookup_target-IsTarget_example = lookup_target-IsTarget records key refl

abbrev empty_index : ErResolveIndex
empty_index = record {
  thresholds = λ tenant_id cdm_entity_type. thresholds;
  snapshot = [];
  deterministic_columns = [];
  entities = [];
  phone_index = [];
}

abbrev company : Dict Field
company =
    (codes "domain", plain (some (text (codes "x.org"))))
    ∷ (codes "phone", plain (some (text (codes "0041 44 1"))))
    ∷ []

run_signal_a-register_entity_fields_example :
    run_signal_a digest
      (signal_index (registered (codes "t") (codes "company") (codes "g") company [] empty_index))
      (codes "t")
      (codes "company")
      company
    ≡ some (codes "g")
unfolding register_entity_fields text_eq extract_field_value er_deterministic_lookup_key any
run_signal_a-register_entity_fields_example =
    run_signal_a-register_entity_fields (codes "t") (codes "company") (codes "g") company []
      empty_index digest (λ column value. refl) refl refl
