-- ===== src/Db/ErIndex/Mapping.antt =====
-- About lookups in entity_resolution_index after the writes of db/er_index.py.
use nexus_spark_lib.Base.{
  ap, Text, ℕ, ◌+◌, ◌≡◌, refl, ◌⊎◌, true, false, none, some, List, [], ◌∷◌, arith, any, count_of,
  text_eq, text_eq_iff, text_eq_refl, select, update_where, select-upsert_self, select-upsert_other,
  upsert_idem, select-delete_where, select-delete_where_other, any-update_where, Option-cases, inl,
  inr,
}
use nexus_spark_lib.Db.Rows.{ErRow, Database}
use nexus_spark_lib.Db.ErIndex.{
  SourceKey, Entry, is_source, entry_row, entry_conflict, upsert_batch, row_entity,
  delete_by_source, is_mapped_to, repointed, repoint_to_survivor, entity_of,
}

-- Two keys name the same source record.
pub record SameKey (k j : SourceKey) : Type 0 where
  pub tenant : k.tenant_id ≡ j.tenant_id
  pub connector : k.connector_id ≡ j.connector_id
  pub table : k.source_table ≡ j.source_table
  pub record_id : k.source_record_id ≡ j.source_record_id

-- Two keys differ in a part.
abbrev pub Differ : SourceKey → SourceKey → Type 0
Differ k j =
    (text_eq k.tenant_id j.tenant_id ≡ false)
    ⊎ (text_eq k.connector_id j.connector_id ≡ false)
    ⊎ (text_eq k.source_table j.source_table ≡ false)
    ⊎ (text_eq k.source_record_id j.source_record_id ≡ false)

is_source_ne :
    (k j : SourceKey) (row : ErRow) → Differ k j → is_source k row ≡ true → is_source j row ≡ false
is_source_ne k j row d h = ground (
  arith,
  text_eq_iff row.tenant_id k.tenant_id,
  text_eq_iff row.connector_id k.connector_id,
  text_eq_iff row.source_table k.source_table,
  text_eq_iff row.source_record_id k.source_record_id,
)

module _ (e : Entry) (db : Database) where
  abbrev after : Database
  after = (upsert_batch (e ∷ []) db).1

  is_source-entry : is_source e.key (entry_row e db.now) ≡ true
  is_source-entry = rw (
    text_eq_refl e.key.tenant_id,
    text_eq_refl e.key.connector_id,
    text_eq_refl e.key.source_table,
    text_eq_refl e.key.source_record_id,
  )

  -- A source record is mapped to the entity of its last upsert.
  pub entity_of-upsert_batch : entity_of e.key after ≡ some e.cdm_entity_id
  unfolding entity_of upsert_batch
  entity_of-upsert_batch =
      rw
        (select-upsert_self (is_source e.key) (entry_conflict e db.now) (entry_row e db.now)
          db.index is_source-entry (λ x h. h))
        (elim (Option-cases (select (is_source e.key) db.index)) [
          | inl p ↦ rw p
          | inr (x, p) ↦ rw p
        ])

  pub entity_of-upsert_batch_ne :
      (other : SourceKey) → Differ e.key other → entity_of other after ≡ entity_of other db
  unfolding entity_of upsert_batch
  entity_of-upsert_batch_ne other d = ap row_entity (
      select-upsert_other (is_source e.key) (is_source other) _ _ db.index
        (is_source_ne e.key other (entry_row e db.now) d is_source-entry)
        (λ x h. is_source_ne e.key other x d h) (λ x h. is_source_ne e.key other x d h))

  pub upsert_batch_idem : (upsert_batch (e ∷ []) after).1 ≡ after
  unfolding upsert_batch
  upsert_batch_idem =
      ap (λ index. record db { index = index })
        (upsert_idem (is_source e.key) _ _ db.index is_source-entry (λ x h. h) refl (λ x. refl))

module _ (key : SourceKey) (db : Database) where
  pub entity_of-delete_by_source : entity_of key (delete_by_source key db).1 ≡ none
  unfolding entity_of delete_by_source
  entity_of-delete_by_source = rw select-delete_where

  pub entity_of-delete_by_source_ne :
      (other : SourceKey)
      → Differ key other
      → entity_of other (delete_by_source key db).1 ≡ entity_of other db
  unfolding entity_of delete_by_source
  entity_of-delete_by_source_ne other d =
      ap row_entity
        (select-delete_where_other (is_source key) (is_source other) db.index (λ x h. not_here x h))
    where
      not_here : (x : ErRow) → is_source other x ≡ true → is_source key x ≡ false
      not_here x h = is_source_ne other key x (flipped d) h
        where
          flipped : Differ key other → Differ other key
          flipped f = ground (
            arith,
            text_eq_iff key.tenant_id other.tenant_id,
            text_eq_iff other.tenant_id key.tenant_id,
            text_eq_iff key.connector_id other.connector_id,
            text_eq_iff other.connector_id key.connector_id,
            text_eq_iff key.source_table other.source_table,
            text_eq_iff other.source_table key.source_table,
            text_eq_iff key.source_record_id other.source_record_id,
            text_eq_iff other.source_record_id key.source_record_id,
          )

module _ (tenant_id loser_id survivor_id : Text) where
  -- Nothing is left at the loser.
  pub any-repoint_to_survivor :
      (db : Database)
      → text_eq survivor_id loser_id ≡ false
      → any
          (is_mapped_to tenant_id loser_id)
          (repoint_to_survivor tenant_id loser_id survivor_id db).1.index
        ≡ false
  unfolding repoint_to_survivor
  any-repoint_to_survivor db ne =
      any-update_where (is_mapped_to tenant_id loser_id) (repointed survivor_id db.now) db.index
        (λ x h. ground arith)

  count_repointed :
      (now : ℕ) (rows : List ErRow)
      → text_eq survivor_id loser_id ≡ false
      → count_of
          (is_mapped_to tenant_id survivor_id)
          (update_where (is_mapped_to tenant_id loser_id) (repointed survivor_id now) rows)
        ≡ count_of (is_mapped_to tenant_id survivor_id) rows
          + count_of (is_mapped_to tenant_id loser_id) rows
  unfolding count_of update_where
  count_repointed now [] ne = refl
  count_repointed now (x ∷ rows) ne = ground (
    arith,
    count_repointed now rows ne,
    text_eq_refl survivor_id,
    text_eq_iff x.cdm_entity_id loser_id,
    text_eq_iff x.cdm_entity_id survivor_id,
    text_eq_iff survivor_id loser_id,
  )

  -- The survivor gains exactly the sources of the loser, and the count is the result.
  pub count-repoint_to_survivor :
      (db : Database)
      → text_eq survivor_id loser_id ≡ false
      → count_of
          (is_mapped_to tenant_id survivor_id)
          (repoint_to_survivor tenant_id loser_id survivor_id db).1.index
        ≡ count_of (is_mapped_to tenant_id survivor_id) db.index
          + (repoint_to_survivor tenant_id loser_id survivor_id db).0
  unfolding repoint_to_survivor
  count-repoint_to_survivor db ne = count_repointed db.now db.index ne
