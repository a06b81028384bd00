-- ===== src/Stage2/Crud/Delete.antt =====
-- About `propagate_delete` of transform/stage2_resolve/crud_propagation.py.
use nexus_spark_lib.Base.{
  List, Text, ◌≡◌, refl, ap, ◌∙◌, ◌⊎◌, inl, inr, true, false, Option, none, some, codes, any,
  text_eq, Bool-cases, any-delete_where, delete_where-none, select,
}
use nexus_spark_lib.Models.ErTypes.{ErOperation, op_upsert, op_remove, tombstoned}
use nexus_spark_lib.Db.Rows.{Database, ErRow}
use nexus_spark_lib.Db.GoldenRecords.{
  state_of, get_golden_record_state, upsert_golden_record, delete_provenance_for_source,
  has_any_provenance, is_source_of, is_provenance_of,
}
use nexus_spark_lib.Db.GoldenRecords.Upserts.{state-upsert_golden_record_ne}
use nexus_spark_lib.Db.ErIndex.{SourceKey, is_source, row_entity, delete_by_source, entity_of}
use nexus_spark_lib.Db.ErIndex.Mapping.{
  Differ, entity_of-delete_by_source, entity_of-delete_by_source_ne,
}
use nexus_spark_lib.Stage2.StateMachine.{tombstone}
use nexus_spark_lib.Stage2.StateMachine.Transitions.{state-tombstone}
use nexus_spark_lib.Stage2.Crud.{settle, after_delete, propagate_delete}

-- How a record is left once sources of it were removed from `before`: with provenance and as it
-- was, or without and tombstoned.
abbrev pub IsSettled : Text → Text → Database → (ErOperation × Option Text) × Database → Type 0
IsSettled tenant_id cdm_entity_id before (result, after) =
    (result ≡ (op_upsert, some cdm_entity_id))
      × (any (is_provenance_of cdm_entity_id tenant_id) after.provenance ≡ true)
      × (state_of cdm_entity_id after ≡ state_of cdm_entity_id before)
    ⊎ (result ≡ (op_remove, some cdm_entity_id))
      × (any (is_provenance_of cdm_entity_id tenant_id) after.provenance ≡ false)
      × (state_of cdm_entity_id after ≡ some tombstoned)

module _ (tenant_id cdm_entity_type cdm_entity_id : Text) where
  pub settle_lem :
      (db : Database)
      → IsSettled tenant_id cdm_entity_id db (settle tenant_id cdm_entity_type cdm_entity_id db)
  unfolding settle has_any_provenance
  settle_lem db = elim (Bool-cases (any (is_provenance_of cdm_entity_id tenant_id) db.provenance)) [
    | inl left ↦ rw left (inl (refl, left, refl))
    | inr gone ↦
        rw gone
          (inr (refl, kept db gone, state-tombstone tenant_id cdm_entity_id cdm_entity_type db))
  ]
    where
      kept :
          (d : Database)
          → any (is_provenance_of cdm_entity_id tenant_id) d.provenance ≡ false
          → any
              (is_provenance_of cdm_entity_id tenant_id)
              (tombstone tenant_id cdm_entity_id cdm_entity_type d).1.provenance
            ≡ false
      kept d h = unfold tombstone upsert_golden_record in h

  pub settle_index :
      (db : Database)
      → ((settle tenant_id cdm_entity_type cdm_entity_id db).1.index ≡ db.index)
        × ((settle tenant_id cdm_entity_type cdm_entity_id db).1.provenance ≡ db.provenance)
  unfolding settle has_any_provenance tombstone upsert_golden_record
  settle_index db =
      elim (Bool-cases (any (is_provenance_of cdm_entity_id tenant_id) db.provenance)) [
        | inl left ↦ rw left (refl, refl)
        | inr gone ↦ rw gone (refl, refl)
      ]

  pub entity_of_settled :
      (other : SourceKey) (db : Database)
      → entity_of other (settle tenant_id cdm_entity_type cdm_entity_id db).1 ≡ entity_of other db
  unfolding entity_of
  entity_of_settled other db =
      ap {A = List ErRow} (λ rows. row_entity (select (is_source other) rows)) (settle_index db).0

  pub state_settled_ne :
      (other : Text) (db : Database)
      → text_eq cdm_entity_id other ≡ false
      → state_of other (settle tenant_id cdm_entity_type cdm_entity_id db).1 ≡ state_of other db
  unfolding settle has_any_provenance tombstone
  state_settled_ne other db ne =
      elim (Bool-cases (any (is_provenance_of cdm_entity_id tenant_id) db.provenance)) [
        | inl left ↦ rw left
        | inr gone ↦ rw gone (
            state-upsert_golden_record_ne cdm_entity_id tenant_id cdm_entity_type tombstoned
              (some (codes "all_sources_deleted")) none db other ne)
      ]

module _ (key : SourceKey) (cdm_entity_type : Text) (db : Database) where
  abbrev pub deletion : (ErOperation × Option Text) × Database
  deletion = propagate_delete key cdm_entity_type db

  -- A DELETE of a source that the index does not hold changes no table, and its result is REMOVE
  -- without a record.
  pub propagate_delete_unindexed :
      entity_of key db ≡ none → propagate_delete key cdm_entity_type db ≡ ((op_remove, none), db)
  unfolding propagate_delete delete_by_source entity_of after_delete
  propagate_delete_unindexed e = rw e (
      ap (λ rows. ((op_remove, none), record db { index = rows }))
        (delete_where-none (is_source key) db.index (no_row (select (is_source key) db.index) e)))
    where
      no_row : (o : Option ErRow) → row_entity o ≡ none → o ≡ none
      no_row none h = refl
      no_row (some row) h = cc

  module _ (cdm_entity_id : Text) (indexed : entity_of key db ≡ some cdm_entity_id) where
    unindexed : Database
    unindexed = (delete_by_source key db).1

    unsourced : Database
    unsourced =
        (delete_provenance_for_source cdm_entity_id key.tenant_id key.connector_id
          key.source_record_id unindexed).1

    deletion-eq : deletion ≡ settle key.tenant_id cdm_entity_type cdm_entity_id unsourced
    unfolding propagate_delete delete_by_source entity_of after_delete unsourced unindexed
    deletion-eq = ap (λ o. after_delete key cdm_entity_type o (delete_by_source key db).1) indexed

    pub delete_settles : IsSettled key.tenant_id cdm_entity_id db deletion
    delete_settles =
        rw deletion-eq
          (rw (← same_state) (settle_lem key.tenant_id cdm_entity_type cdm_entity_id unsourced))
      where
        same_state : state_of cdm_entity_id unsourced ≡ state_of cdm_entity_id db
        same_state =
            unfold unsourced unindexed delete_provenance_for_source delete_by_source
              get_golden_record_state in
            refl

    -- A DELETE of a source that the index maps to a record: the source has no row in the index and
    -- no row of provenance left; its record keeps its state if other provenance of it is left, and
    -- is tombstoned, with operation REMOVE, if none is; sources with another key are mapped as
    -- before.
    pub propagate_delete_indexed :
        IsSettled key.tenant_id cdm_entity_id db deletion
        × (entity_of key deletion.1 ≡ none)
        × (any
              (is_source_of cdm_entity_id key.tenant_id key.connector_id key.source_record_id)
              deletion.1.provenance
            ≡ false)
        × ((other : SourceKey) → Differ key other → entity_of other deletion.1 ≡ entity_of other db)
    propagate_delete_indexed = (
      delete_settles,
      rw deletion-eq (entity_of_unsourced key ∙ entity_of-delete_by_source key db),
      rw (deletion-eq, provenance)
          (unfold unsourced delete_provenance_for_source in
            any-delete_where
              (is_source_of cdm_entity_id key.tenant_id key.connector_id key.source_record_id)
              unindexed.provenance),
      λ other d.
          rw deletion-eq (entity_of_unsourced other ∙ entity_of-delete_by_source_ne key db other d),
    )
      where
        provenance :
            (settle key.tenant_id cdm_entity_type cdm_entity_id unsourced).1.provenance
            ≡ unsourced.provenance
        provenance = (settle_index key.tenant_id cdm_entity_type cdm_entity_id unsourced).1

        entity_of_unsourced :
            (other : SourceKey)
            → entity_of other (settle key.tenant_id cdm_entity_type cdm_entity_id unsourced).1
              ≡ entity_of other (delete_by_source key db).1
        entity_of_unsourced other =
            entity_of_settled key.tenant_id cdm_entity_type cdm_entity_id other unsourced
            ∙ (unfold unsourced unindexed delete_provenance_for_source entity_of in refl)
