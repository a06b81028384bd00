-- ===== src/Db/GoldenRecords.antt =====
-- nexus_spark_lib/db/golden_records.py: golden_records_index and golden_record_provenance.
pub mod Upserts
use nexus_spark_lib.Base.{
  Text, ℕ, suc, Bool, ◌&&◌, not, Option, none, some, List, [], ◌∷◌, map, if◌then◌else◌, any, keep,
  text_eq, select, upsert, delete_where, length, or_default,
}
use nexus_spark_lib.Models.ErTypes.{GoldenRecordState, active, provisional, superseded, tombstoned}
use nexus_spark_lib.Db.Rows.{GoldenRow, GrpRow, Database, Action, query}
use nexus_spark_lib.Db.Chain.{chase}

abbrev pub state_eq : GoldenRecordState → GoldenRecordState → Bool
state_eq active active = Bool.true
state_eq provisional provisional = Bool.true
state_eq superseded superseded = Bool.true
state_eq tombstoned tombstoned = Bool.true
state_eq _ _ = Bool.false

abbrev pub is_entity : Text → GoldenRow → Bool
is_entity cdm_entity_id row = text_eq row.cdm_entity_id cdm_entity_id

-- The DO UPDATE SET part: the time of the last change of state stays where the state does.
abbrev pub golden_conflict :
    GoldenRecordState → Option Text → Option Text → ℕ → GoldenRow → GoldenRow
golden_conflict state reason successor_id now row = record row {
  state = state;
  successor_id = successor_id;
  updated_at = now;
  state_changed_at = if state_eq row.state state then row.state_changed_at else now;
  state_change_reason = reason;
}

abbrev pub golden_insert :
    Text → Text → Text → GoldenRecordState → Option Text → Option Text → ℕ → GoldenRow
golden_insert cdm_entity_id tenant_id cdm_entity_type state reason successor_id now = record {
  cdm_entity_id = cdm_entity_id;
  tenant_id = tenant_id;
  cdm_entity_type = cdm_entity_type;
  state = state;
  successor_id = successor_id;
  created_at = now;
  updated_at = now;
  state_changed_at = now;
  state_change_reason = reason;
}

unfoldable pub upsert_golden_record :
    Text → Text → Text → GoldenRecordState → Option Text → Option Text → Action (Unit {0})
upsert_golden_record cdm_entity_id tenant_id cdm_entity_type state reason successor_id db = (
  tt,
  record db {
    golden =
        upsert (is_entity cdm_entity_id) (golden_conflict state reason successor_id db.now)
          (golden_insert cdm_entity_id tenant_id cdm_entity_type state reason successor_id db.now)
          db.golden;
  },
)

abbrev pub row_state : Option GoldenRow → Option GoldenRecordState
row_state none = none
row_state (some row) = some row.state

abbrev pub row_successor : Option GoldenRow → Option Text
row_successor none = none
row_successor (some row) = row.successor_id

unfoldable pub get_golden_record_state : Text → Action (Option GoldenRecordState)
get_golden_record_state cdm_entity_id =
    query (λ db. row_state (select (is_entity cdm_entity_id) db.golden))

abbrev pub state_of : Text → Database → Option GoldenRecordState
state_of cdm_entity_id db = (get_golden_record_state cdm_entity_id db).0

-- SELECT successor_id: no row and NULL are the same to the loop.
unfoldable pub successor_of : List GoldenRow → Text → Option Text
successor_of golden current = row_successor (select (is_entity current) golden)

-- The fuel: one step for each row, and one more.
unfoldable pub resolve_successor : Text → Action Text
resolve_successor cdm_entity_id = query λ db.
    or_default (chase (successor_of db.golden) (suc (length db.golden)) [] cdm_entity_id)
      cdm_entity_id

abbrev pub is_source_of : Text → Text → Text → Text → GrpRow → Bool
is_source_of cdm_entity_id tenant_id source_system source_record_id row =
    (text_eq row.cdm_entity_id cdm_entity_id && text_eq row.tenant_id tenant_id)
    && (text_eq row.winning_connector_id source_system
        && text_eq row.winning_record_id source_record_id)

-- DELETE … RETURNING attribute_name
unfoldable pub delete_provenance_for_source : Text → Text → Text → Text → Action (List Text)
delete_provenance_for_source cdm_entity_id tenant_id source_system source_record_id db = (
  map (λ row. row.attribute_name)
      (keep (is_source_of cdm_entity_id tenant_id source_system source_record_id) db.provenance),
  record db {
    provenance =
        delete_where (is_source_of cdm_entity_id tenant_id source_system source_record_id)
          db.provenance;
  },
)

abbrev pub is_provenance_of : Text → Text → GrpRow → Bool
is_provenance_of cdm_entity_id tenant_id row =
    text_eq row.cdm_entity_id cdm_entity_id && text_eq row.tenant_id tenant_id

unfoldable pub has_any_provenance : Text → Text → Action Bool
has_any_provenance cdm_entity_id tenant_id =
    query (λ db. any (is_provenance_of cdm_entity_id tenant_id) db.provenance)
