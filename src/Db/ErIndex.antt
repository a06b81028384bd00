-- ===== src/Db/ErIndex.antt =====
-- nexus_spark_lib/db/er_index.py: entity_resolution_index, one row for each source record.
pub mod Mapping
use nexus_spark_lib.Base.{
  Text, ℕ, Bool, ◌&&◌, Option, none, some, List, [], ◌∷◌, keep, count_of, text_eq, select, upsert,
  update_where, delete_where,
}
use nexus_spark_lib.Models.ErTypes.{method_merge_inheritance}
use nexus_spark_lib.Db.Rows.{ErRow, Database, Action, query}

-- The key of a source record, and one entry of `upsert_batch`.
pub record SourceKey : Type 0 where
  pub tenant_id : Text
  pub connector_id : Text
  pub source_table : Text
  pub source_record_id : Text

pub record Entry : Type 0 where
  pub key : SourceKey
  pub source_system : Text
  pub cdm_entity_id : Text
  pub cdm_entity_type : Text
  pub confidence : ℕ
  pub method : Text
  pub provisional : Bool

abbrev pub is_source : SourceKey → ErRow → Bool
is_source key row =
    (text_eq row.tenant_id key.tenant_id && text_eq row.connector_id key.connector_id)
    && (text_eq row.source_table key.source_table
        && text_eq row.source_record_id key.source_record_id)

abbrev pub entry_row : Entry → ℕ → ErRow
entry_row e now = record {
  cdm_entity_id = e.cdm_entity_id;
  tenant_id = e.key.tenant_id;
  connector_id = e.key.connector_id;
  source_system = e.source_system;
  entity_type = e.cdm_entity_type;
  source_table = e.key.source_table;
  source_record_id = e.key.source_record_id;
  cdm_entity_type = e.cdm_entity_type;
  confidence = e.confidence;
  resolution_method = e.method;
  resolved_at = now;
  provisional = e.provisional;
}

abbrev pub entry_conflict : Entry → ℕ → ErRow → ErRow
entry_conflict e now row = record row {
  cdm_entity_id = e.cdm_entity_id;
  entity_type = e.cdm_entity_type;
  cdm_entity_type = e.cdm_entity_type;
  source_system = e.source_system;
  confidence = e.confidence;
  resolution_method = e.method;
  resolved_at = now;
  provisional = e.provisional;
}

abbrev upsert_entry : ℕ → Entry → List ErRow → List ErRow
upsert_entry now e rows = upsert (is_source e.key) (entry_conflict e now) (entry_row e now) rows

-- executemany: the statement for each entry in turn.
unfoldable pub upsert_rows : ℕ → List Entry → List ErRow → List ErRow
upsert_rows now [] rows = rows
upsert_rows now (e ∷ entries) rows = upsert_rows now entries (upsert_entry now e rows)

unfoldable pub upsert_batch : List Entry → Action (Unit {0})
unfolding upsert_rows
upsert_batch entries db = (tt, record db { index = upsert_rows db.now entries db.index })

abbrev pub row_entity : Option ErRow → Option Text
row_entity none = none
row_entity (some row) = some row.cdm_entity_id

-- DELETE … RETURNING cdm_entity_id
unfoldable pub delete_by_source : SourceKey → Action (Option Text)
delete_by_source key db = (
  row_entity (select (is_source key) db.index),
  record db { index = delete_where (is_source key) db.index },
)

abbrev pub is_mapped_to : Text → Text → ErRow → Bool
is_mapped_to tenant_id cdm_entity_id row =
    text_eq row.tenant_id tenant_id && text_eq row.cdm_entity_id cdm_entity_id

-- A row stands for the dict of its columns.
unfoldable pub get_sources_for_entity : Text → Text → Action (List ErRow)
get_sources_for_entity tenant_id cdm_entity_id =
    query (λ db. keep (is_mapped_to tenant_id cdm_entity_id) db.index)

abbrev pub repointed : Text → ℕ → ErRow → ErRow
repointed survivor_id now row = record row {
  cdm_entity_id = survivor_id;
  resolution_method = method_merge_inheritance;
  resolved_at = now;
}

-- UPDATE: the count of the rows that were rewritten is the result.
unfoldable pub repoint_to_survivor : Text → Text → Text → Action ℕ
repoint_to_survivor tenant_id loser_id survivor_id db = (
  count_of (is_mapped_to tenant_id loser_id) db.index,
  record db {
    index = update_where (is_mapped_to tenant_id loser_id) (repointed survivor_id db.now) db.index;
  },
)

-- The entity to which a source record is mapped.
unfoldable pub entity_of : SourceKey → Database → Option Text
entity_of key db = row_entity (select (is_source key) db.index)
