-- ===== src/Stage2/Crud.antt =====
-- nexus_spark_lib/transform/stage2_resolve/crud_propagation.py: what an INSERT, a DELETE, a split
-- and a MERGE do to the ER index, to provenance and to the golden records.
pub mod Insert
pub mod Delete
pub mod Merge
pub mod Split
use nexus_spark_lib.Base.{
  Text, ℕ, Bool, true, false, Option, none, some, List, [], ◌∷◌, codes, if◌then◌else◌,
}
use nexus_spark_lib.Models.ErTypes.{ErOperation, op_upsert, op_merge, op_remove}
use nexus_spark_lib.Db.Rows.{Action, pure, ◌>>=◌, ◌>>◌}
use nexus_spark_lib.Db.GoldenRecords.{delete_provenance_for_source, has_any_provenance}
use nexus_spark_lib.Db.ErIndex.{
  SourceKey, Entry, upsert_batch, delete_by_source, repoint_to_survivor,
}
use nexus_spark_lib.Db.Redirects.{queue_for_review}
use nexus_spark_lib.Stage2.StateMachine.{create_or_activate, merge, tombstone, mark_provisional}

-- The branch of propagate_insert on `provisional`, with the reason that the caller gives.
unfoldable pub activate : Text → Bool → Text → Text → Text → Action (Unit {0})
activate tenant_id provisional cdm_entity_id cdm_entity_type reason =
    if provisional
    then mark_provisional tenant_id cdm_entity_id cdm_entity_type
    else (create_or_activate tenant_id cdm_entity_id cdm_entity_type reason >>= λ _. pure tt)

unfoldable pub propagate_insert : Entry → Action ErOperation
propagate_insert e = do
  activate e.key.tenant_id e.provisional e.cdm_entity_id e.cdm_entity_type (codes "insert")
  upsert_batch (e ∷ [])
  pure op_upsert

-- Steps 3 and 4 of propagate_delete: a record without provenance is tombstoned.
unfoldable pub settle : Text → Text → Text → Action (ErOperation × Option Text)
settle tenant_id cdm_entity_type cdm_entity_id = do
  still_has_sources ← has_any_provenance cdm_entity_id tenant_id
  if still_has_sources then pure (op_upsert, some cdm_entity_id) else do
    tombstone tenant_id cdm_entity_id cdm_entity_type
    pure (op_remove, some cdm_entity_id)

unfoldable pub after_delete : SourceKey → Text → Option Text → Action (ErOperation × Option Text)
after_delete key cdm_entity_type none = pure (op_remove, none)
after_delete key cdm_entity_type (some cdm_entity_id) = do
  delete_provenance_for_source cdm_entity_id key.tenant_id key.connector_id key.source_record_id
  settle key.tenant_id cdm_entity_type cdm_entity_id

unfoldable pub propagate_delete : SourceKey → Text → Action (ErOperation × Option Text)
propagate_delete key cdm_entity_type = do
  cdm_entity_id ← delete_by_source key
  after_delete key cdm_entity_type cdm_entity_id

-- `e.cdm_entity_id` is the new entity.
unfoldable pub propagate_resolution_split : Text → Entry → Action ErOperation
propagate_resolution_split prior_cdm_entity_id e = do
  delete_provenance_for_source prior_cdm_entity_id e.key.tenant_id e.key.connector_id
      e.key.source_record_id
  settle e.key.tenant_id e.cdm_entity_type prior_cdm_entity_id
  propagate_insert e
  pure op_upsert

unfoldable pub propagate_merge : Text → Text → Text → Text → Action ErOperation
propagate_merge tenant_id cdm_entity_type loser_id survivor_id = do
  merge tenant_id loser_id survivor_id cdm_entity_type
  repoint_to_survivor tenant_id loser_id survivor_id
  pure op_merge

unfoldable pub queue_review : Text → Text → Text → Text → ℕ → Text → Action Bool
queue_review tenant_id cdm_entity_type candidate_a candidate_b score signal_breakdown = do
  inserted ←
      queue_for_review tenant_id cdm_entity_type candidate_a candidate_b score signal_breakdown
  pure inserted
