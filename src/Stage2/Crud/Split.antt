-- ===== src/Stage2/Crud/Split.antt =====
-- About `propagate_resolution_split` of transform/stage2_resolve/crud_propagation.py.
use nexus_spark_lib.Base.{
  Text, ◌≡◌, refl, ap, ◌∙◌, ◌⊎◌, inl, inr, true, false, Option, some, any, text_eq,
  any-delete_where,
}
use nexus_spark_lib.Models.ErTypes.{ErOperation, tombstoned}
use nexus_spark_lib.Db.Rows.{Database}
use nexus_spark_lib.Db.GoldenRecords.{
  state_of, get_golden_record_state, delete_provenance_for_source, is_source_of, is_provenance_of,
}
use nexus_spark_lib.Db.ErIndex.{Entry, entity_of}
use nexus_spark_lib.Stage2.Crud.{settle, propagate_resolution_split}
use nexus_spark_lib.Stage2.Crud.Insert.{
  inserted, target_state, state_inserted, state_inserted_ne, entity_of-inserted,
  provenance_inserted,
}
use nexus_spark_lib.Stage2.Crud.Delete.{IsSettled, settle_lem, settle_index, state_settled_ne}

module _ (prior_cdm_entity_id : Text) (e : Entry) (db : Database) where
  abbrev pub split : Database
  split = (propagate_resolution_split prior_cdm_entity_id e db).1

  unsourced : Database
  unsourced =
      (delete_provenance_for_source prior_cdm_entity_id e.key.tenant_id e.key.connector_id
        e.key.source_record_id db).1

  abbrev settled : (ErOperation × Option Text) × Database
  settled = settle e.key.tenant_id e.cdm_entity_type prior_cdm_entity_id unsourced

  split-eq : split ≡ inserted e settled.1
  unfolding propagate_resolution_split unsourced inserted
  split-eq = refl

  state_of-unsourced : (other : Text) → state_of other unsourced ≡ state_of other db
  unfolding unsourced delete_provenance_for_source get_golden_record_state
  state_of-unsourced other = refl

  abbrev IsLeft : (ErOperation × Option Text) × Database → Type 0
  IsLeft (result, after) =
      (any (is_provenance_of prior_cdm_entity_id e.key.tenant_id) after.provenance ≡ true)
        × (state_of prior_cdm_entity_id after ≡ state_of prior_cdm_entity_id db)
      ⊎ (any (is_provenance_of prior_cdm_entity_id e.key.tenant_id) after.provenance ≡ false)
        × (state_of prior_cdm_entity_id after ≡ some tombstoned)

  IsLeft-of_settled :
      (r : (ErOperation × Option Text) × Database)
      → IsSettled e.key.tenant_id prior_cdm_entity_id unsourced r
      → IsLeft r
  IsLeft-of_settled r (inl (p, q, s)) = inl (q, s ∙ state_of-unsourced prior_cdm_entity_id)
  IsLeft-of_settled r (inr (p, q, s)) = inr (q, s)

  -- After a split of a source from its prior record to another one: the source is mapped to the new
  -- record, whose state is that of an INSERT; the prior record has no provenance of the source; it
  -- keeps its state if other provenance is left to it, and is tombstoned if none is.
  pub propagate_resolution_split_lem :
      text_eq e.cdm_entity_id prior_cdm_entity_id ≡ false
      → text_eq prior_cdm_entity_id e.cdm_entity_id ≡ false
      → (entity_of e.key split ≡ some e.cdm_entity_id)
        × (state_of e.cdm_entity_id split ≡ some (target_state e (state_of e.cdm_entity_id db)))
        × (any
              (is_source_of prior_cdm_entity_id e.key.tenant_id e.key.connector_id
                e.key.source_record_id)
              split.provenance
            ≡ false)
        × ((any (is_provenance_of prior_cdm_entity_id e.key.tenant_id) split.provenance ≡ true)
              × (state_of prior_cdm_entity_id split ≡ state_of prior_cdm_entity_id db)
            ⊎ (any (is_provenance_of prior_cdm_entity_id e.key.tenant_id) split.provenance ≡ false)
              × (state_of prior_cdm_entity_id split ≡ some tombstoned))
  unfolding any get_golden_record_state
  propagate_resolution_split_lem ne en = (
    rw split-eq (entity_of-inserted e settled.1),
    rw split-eq (
        state_inserted e settled.1
        ∙ ap (λ c. some (target_state e c))
            (state_settled_ne e.key.tenant_id e.cdm_entity_type prior_cdm_entity_id e.cdm_entity_id
                unsourced en
              ∙ state_of-unsourced e.cdm_entity_id)),
    rw
        (
          split-eq,
          provenance_inserted e settled.1,
          (settle_index e.key.tenant_id e.cdm_entity_type prior_cdm_entity_id unsourced).1,
        )
        (unfold unsourced delete_provenance_for_source in
          any-delete_where
            (is_source_of prior_cdm_entity_id e.key.tenant_id e.key.connector_id
              e.key.source_record_id)
            db.provenance),
    rw
        (
          split-eq,
          provenance_inserted e settled.1,
          state_inserted_ne e settled.1 prior_cdm_entity_id ne,
        )
        (IsLeft-of_settled settled
          (settle_lem e.key.tenant_id e.cdm_entity_type prior_cdm_entity_id unsourced)),
  )
