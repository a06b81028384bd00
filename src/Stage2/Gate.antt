-- ===== src/Stage2/Gate.antt =====
-- nexus_spark_lib/transform/stage2_resolve/materialization_gate.py and its lookups,
-- nexus_spark_lib/db/er_index_lookup.py. The answers of the presence reader are a parameter.
pub mod Routing
use nexus_spark_lib.Base.{
  Text, ℕ, Bool, true, false, ◌&&◌, ◌||◌, Option, none, some, List, [], ◌∷◌, codes, if◌then◌else◌,
  leb, ltb, ◌==◌, text_eq, strip, Dict, dict_get, keep, sort_by,
}
use nexus_spark_lib.Models.EntityStore.{
  EntityStoreState, cold, warm, hot, EntityStorePresence, classify_entity_store_presence,
}
use nexus_spark_lib.Stage3.Context.{Scalar, Field, extract_field_value, str}

-- `text or None`
abbrev pub non_empty : Option Text → Option Text
non_empty none = none
non_empty (some []) = none
non_empty (some (c ∷ s)) = some (c ∷ s)

abbrev stripped : Option Scalar → Option Text
stripped none = none
stripped (some value) = non_empty (some (strip (str value)))

abbrev value_of : Option Field → Option Text
value_of none = none
value_of (some raw) = stripped (extract_field_value raw)

unfoldable pub extract_field : Dict Field → Text → Option Text
unfolding strip extract_field_value
extract_field fields name = value_of (dict_get name fields)

-- The columns of entity_resolution_index that the lookups read. An absent instant is `none`.
pub record LookupRow : Type 0 where
  pub cdm_entity_id : Text
  pub tenant_id : Text
  pub cdm_entity_type : Text
  pub source_connector : Text
  pub source_record_id : Text
  pub deterministic_id_column : Text
  pub deterministic_id_value : Text
  pub is_active : Option Bool
  pub confidence : Option ℕ
  pub resolved_at : Option ℕ

-- COALESCE(is_active, TRUE) IS TRUE
abbrev active_row : Option Bool → Bool
active_row none = true
active_row (some b) = b

-- ORDER BY x DESC NULLS LAST
abbrev pub desc_nulls_last : Option ℕ → Option ℕ → Bool
desc_nulls_last none b = false
desc_nulls_last (some x) none = true
desc_nulls_last (some x) (some y) = ltb y x

abbrev nulls_eq : Option ℕ → Option ℕ → Bool
nulls_eq none none = true
nulls_eq (some x) (some y) = x == y
nulls_eq _ _ = false

abbrev pub newer : LookupRow → LookupRow → Bool
newer a b = desc_nulls_last a.resolved_at b.resolved_at

abbrev pub surer : LookupRow → LookupRow → Bool
surer a b =
    desc_nulls_last a.confidence b.confidence || (nulls_eq a.confidence b.confidence && newer a b)

-- LIMIT 1, and `rows[0] if rows else None` where `_fetch` keeps the ids that are not empty.
abbrev pub first_id : List LookupRow → Option Text
first_id [] = none
first_id (row ∷ rows) = non_empty (some row.cdm_entity_id)

unfoldable pub fast_path : List LookupRow → Text → Text → Text → Option Text
fast_path rows tenant_id source_connector source_record_id = first_id (
    sort_by newer (
      keep
        (λ row.
          text_eq row.tenant_id tenant_id
          && (text_eq row.source_connector source_connector
              && (text_eq row.source_record_id source_record_id && active_row row.is_active)))
        rows))

unfoldable pub signal_a : List LookupRow → Text → Text → Text → Text → Option Text
signal_a rows tenant_id cdm_entity_type column value = first_id (
    sort_by surer (
      keep
        (λ row.
          text_eq row.tenant_id tenant_id
          && (text_eq row.cdm_entity_type cdm_entity_type
              && (text_eq row.deterministic_id_column column
                  && (text_eq row.deterministic_id_value value && active_row row.is_active))))
        rows))

pub record GateOutcome : Type 0 where
  pub cdm_entity_id : Option Text
  pub materialization : EntityStoreState
  pub resolution_method : Option Text
  pub proceed_pipeline : Bool
  pub write_ai_stores : Bool
  pub register_er_index_only : Bool
  pub skip_reason : Option Text
  pub presence : Option EntityStorePresence

-- The call's record: what identifies it, and its fields.
pub record GateInput : Type 0 where
  pub tenant_id : Text
  pub cdm_entity_type : Text
  pub source_connector : Text
  pub source_record_id : Text
  pub fields : Dict Field
  pub deterministic_columns : List Text
  pub cdm_entity_id : Option Text

-- `deterministic_columns or [...]`
abbrev pub columns_of : List Text → List Text
columns_of [] = codes "tax_id" ∷ codes "domain" ∷ codes "duns_number" ∷ []
columns_of (c ∷ cs) = c ∷ cs

module _ (find : Text → Text → Option Text) where
  abbrev pub find_value : Text → Option Text → Option Text
  find_value column none = none
  find_value column (some value) = non_empty (find column value)

  -- The loop over the columns: the first that resolves.
  unfoldable pub first_signal : Dict Field → List Text → Option Text
  unfolding extract_field
  first_signal fields [] = none
  first_signal fields (column ∷ columns) =
      let rest = first_signal fields columns in
      elim (find_value column (extract_field fields column)) [ some id ↦ some id | none ↦ rest ]

-- An identity, and how it was found.
abbrev pub Identity : Type 0
Identity = Option Text × Option Text

abbrev pub by_method : Text → Option Text → Identity
by_method method none = (none, none)
by_method method (some id) = (some id, some method)

abbrev pub or_else : Identity → Identity → Identity
or_else (some id, method) later = (some id, method)
or_else (none, method) later = later

abbrev pub given_identity : Option Text → Identity
given_identity none = (none, none)
given_identity (some id) = (some id, none)

unfoldable pub cold_outcome : Option Text → Option Text → Text → Bool → GateOutcome
cold_outcome cdm_entity_id method reason register = record {
  cdm_entity_id = cdm_entity_id;
  materialization = cold;
  resolution_method = method;
  proceed_pipeline = false;
  write_ai_stores = false;
  register_er_index_only = register;
  skip_reason = some reason;
  presence = none;
}

unfoldable pub routed :
    EntityStoreState → Text → Option Text → Option EntityStorePresence → GateOutcome
unfolding cold_outcome
routed cold id method row =
    record (cold_outcome (some id) method (codes "entity_store_cold") true) { presence = row }
routed warm id method row = record {
  cdm_entity_id = some id;
  materialization = warm;
  resolution_method = method;
  proceed_pipeline = true;
  write_ai_stores = false;
  register_er_index_only = false;
  skip_reason = none;
  presence = row;
}
routed hot id method row = record {
  cdm_entity_id = some id;
  materialization = hot;
  resolution_method = method;
  proceed_pipeline = true;
  write_ai_stores = true;
  register_er_index_only = false;
  skip_reason = none;
  presence = row;
}

module _ (rows : List LookupRow) (presence : Text → Text → Option EntityStorePresence) where
  -- `signal_a_fn`, if the caller gives one, stands in for the lookup.
  abbrev pub finder : Option (Text → Text → Option Text) → GateInput → Text → Text → Option Text
  finder (some signal_a_fn) i = signal_a_fn
  finder none i = signal_a rows i.tenant_id i.cdm_entity_type

  unfoldable pub identify : Option (Text → Text → Option Text) → GateInput → Identity
  unfolding fast_path signal_a first_signal
  identify signal_a_fn i = or_else (given_identity (non_empty i.cdm_entity_id)) (
      or_else
        (by_method (codes "fast_path")
          (fast_path rows i.tenant_id i.source_connector i.source_record_id))
        (by_method (codes "signal_a")
          (first_signal (finder signal_a_fn i) i.fields (columns_of i.deterministic_columns))))

  unfoldable pub gate_of : GateInput → Identity → GateOutcome
  unfolding routed classify_entity_store_presence cold_outcome
  gate_of i (none, method) = cold_outcome none none (codes "entity_unresolved") false
  gate_of i (some id, method) =
      routed (classify_entity_store_presence (presence i.tenant_id id)) id method
        (presence i.tenant_id id)

  unfoldable pub run_materialization_gate :
      Option (Text → Text → Option Text) → GateInput → GateOutcome
  unfolding identify gate_of
  run_materialization_gate signal_a_fn i = gate_of i (identify signal_a_fn i)
