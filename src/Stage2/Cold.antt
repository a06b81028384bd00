-- ===== src/Stage2/Cold.antt =====
-- `persist_cold_er_rows` of nexus_spark_lib/transform/pipeline.py: rows that the entity store holds
-- COLD are put into the index and are not published.
pub mod Registered
use nexus_spark_lib.Base.{
  Text, ℕ, suc, Bool, false, List, [], ◌∷◌, codes, or_text, non_empty, if◌then◌else◌,
}
use nexus_spark_lib.Db.Rows.{Database, Action}
use nexus_spark_lib.Stage2.Persist.{Outcome, persist_entity_resolution_outcome}

-- The keys of a row that are read; a missing one is the empty text.
pub record ColdRow : Type 0 where
  pub tenant_id : Text
  pub source_table : Text
  pub source_system : Text
  pub source_record_id : Text
  pub cdm_entity_id : Text
  pub cdm_entity_type : Text
  pub er_resolution_method : Text

abbrev pub has_id : ColdRow → Bool
has_id row = non_empty row.cdm_entity_id

module _ (connector_id source_table : Text) where
  abbrev pub cold_outcome : ColdRow → Outcome
  cold_outcome row = record {
    key = record {
      tenant_id = row.tenant_id;
      connector_id = connector_id;
      source_table = or_text row.source_table source_table;
      source_record_id = row.source_record_id;
    };
    source_system = row.source_system;
    cdm_entity_id = row.cdm_entity_id;
    cdm_entity_type = or_text row.cdm_entity_type (codes "party");
    er_confidence = 10000;
    er_resolution_method = or_text row.er_resolution_method (codes "signal_a");
    er_is_provisional = false;
    er_review_peer_cdm_id = [];
    breakdown = [];
  }

  -- The loop over the rows, with its count.
  unfoldable pub persist_rows : List ColdRow → ℕ → Action ℕ
  unfolding persist_entity_resolution_outcome
  persist_rows [] count db = (count, db)
  persist_rows (row ∷ rows) count db =
      if has_id row
      then persist_rows rows (suc count)
          (persist_entity_resolution_outcome (cold_outcome row) false db).1
      else persist_rows rows count db

  unfoldable pub persist_cold_er_rows : List ColdRow → Action ℕ
  unfolding persist_rows
  persist_cold_er_rows rows = persist_rows rows 0
