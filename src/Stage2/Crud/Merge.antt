-- ===== src/Stage2/Crud/Merge.antt =====
-- About `propagate_merge` of transform/stage2_resolve/crud_propagation.py.
use nexus_spark_lib.Base.{Text, ◌+◌, ◌≡◌, refl, false, none, some, text_eq, any, count_of}
use nexus_spark_lib.Models.ErTypes.{op_merge, superseded}
use nexus_spark_lib.Db.Rows.{Database}
use nexus_spark_lib.Db.GoldenRecords.{
  state_of, successor_of, resolve_successor, get_golden_record_state, upsert_golden_record,
}
use nexus_spark_lib.Db.ErIndex.{is_mapped_to, repoint_to_survivor}
use nexus_spark_lib.Db.ErIndex.Mapping.{any-repoint_to_survivor, count-repoint_to_survivor}
use nexus_spark_lib.Db.Redirects.{redirect_of, insert_redirect}
use nexus_spark_lib.Stage2.StateMachine.{merge}
use nexus_spark_lib.Stage2.StateMachine.Links.{
  ultimate, merged, successor-merge, state-merge, redirect-merge, resolve_successor-merge,
}
use nexus_spark_lib.Stage2.Crud.{propagate_merge}

module _ (tenant_id cdm_entity_type loser_id survivor_id : Text) (db : Database) where
  abbrev pub after_merge : Database
  after_merge = (propagate_merge tenant_id cdm_entity_type loser_id survivor_id db).1

  abbrev target : Text
  target = ultimate tenant_id loser_id survivor_id cdm_entity_type db

  after_merge-eq :
      after_merge
      ≡ (repoint_to_survivor tenant_id loser_id survivor_id
          (merged tenant_id loser_id survivor_id cdm_entity_type db)).1
  unfolding propagate_merge
  after_merge-eq = refl

  merged_index : (merged tenant_id loser_id survivor_id cdm_entity_type db).index ≡ db.index
  unfolding merge resolve_successor upsert_golden_record insert_redirect
  merged_index = refl

  -- After a MERGE of a loser into a survivor, whatever the tables, the loser is SUPERSEDED, and its
  -- successor and its redirect are the record that the survivor itself resolved to before.
  pub propagate_merge_links :
      ((propagate_merge tenant_id cdm_entity_type loser_id survivor_id db).0 ≡ op_merge)
      × (state_of loser_id after_merge ≡ some superseded)
      × (successor_of after_merge.golden loser_id ≡ some (resolve_successor survivor_id db).0)
      × (redirect_of after_merge.redirects loser_id ≡ some (resolve_successor survivor_id db).0)
  unfolding propagate_merge repoint_to_survivor get_golden_record_state
  propagate_merge_links = (
    refl,
    state-merge tenant_id loser_id survivor_id cdm_entity_type db,
    successor-merge tenant_id loser_id survivor_id cdm_entity_type db,
    redirect-merge tenant_id loser_id survivor_id cdm_entity_type db,
  )

  -- After a MERGE into another record no source of the tenant is mapped to the loser, and the
  -- survivor has as many more sources as the loser had.
  pub propagate_merge_repoints :
      text_eq survivor_id loser_id ≡ false
      → (any (is_mapped_to tenant_id loser_id) after_merge.index ≡ false)
        × (count_of (is_mapped_to tenant_id survivor_id) after_merge.index
            ≡ count_of (is_mapped_to tenant_id survivor_id) db.index
              + count_of (is_mapped_to tenant_id loser_id) db.index)
  propagate_merge_repoints ne = (
    rw after_merge-eq (
        any-repoint_to_survivor tenant_id loser_id survivor_id
          (merged tenant_id loser_id survivor_id cdm_entity_type db) ne),
    rw after_merge-eq (
        unfold repoint_to_survivor merge resolve_successor upsert_golden_record insert_redirect in
        count-repoint_to_survivor tenant_id loser_id survivor_id
          (merged tenant_id loser_id survivor_id cdm_entity_type db) ne),
  )

  -- After a MERGE the loser resolves to what the survivor resolved to before, if that is not the
  -- loser and had no successor.
  pub propagate_merge_resolves :
      text_eq loser_id target ≡ false
      → successor_of db.golden target ≡ none
      → (resolve_successor loser_id after_merge).0 ≡ target
  unfolding propagate_merge repoint_to_survivor resolve_successor
  propagate_merge_resolves ne last =
      resolve_successor-merge tenant_id loser_id survivor_id cdm_entity_type db ne last
