-- ===== src/Stage2/Snapshot/Records.antt =====
-- About the source records of a snapshot, by which foreign keys are resolved: the second loop of
-- `load_er_index_snapshot` in db/er_index.py.
use nexus_spark_lib.Base.{
  Text, ◌≡◌, refl, ap, ◌∙◌, sym, Bool, true, false, ◌&&◌, none, some, List, [], ◌∷◌, arith, or_else,
  or_else-none, or_else_assoc, text_eq_iff, select, if◌then◌else◌, Bool-cases, inl, inr,
}
use nexus_spark_lib.Db.Rows.{ErRow, Database}
use nexus_spark_lib.Db.ErIndex.{row_entity}
use nexus_spark_lib.Stage2.ForeignKeys.{
  RecordKey, RecordIndex, key_eq, find_entity_by_source_record,
}
use nexus_spark_lib.Stage2.Snapshot.{
  IdColumn, ThresholdRow, record_key, is_named, record_set_default, put_records,
  load_er_index_snapshot,
}

key_eq→eq : (a b : RecordKey) → key_eq a b ≡ true → a ≡ b
key_eq→eq a b h = let (p, q, s, u) = parts in rw (p, q, s, u) refl
  where
    parts :
        (a.tenant_id ≡ b.tenant_id)
        × (a.cdm_entity_type ≡ b.cdm_entity_type)
        × (a.source_system ≡ b.source_system)
        × (a.source_record_id ≡ b.source_record_id)
    parts = ground (
      arith,
      text_eq_iff a.tenant_id b.tenant_id,
      text_eq_iff a.cdm_entity_type b.cdm_entity_type,
      text_eq_iff a.source_system b.source_system,
      text_eq_iff a.source_record_id b.source_record_id,
    )

key_eq_left : (i j k : RecordKey) → key_eq i j ≡ true → key_eq j k ≡ key_eq i k
key_eq_left i j k h = ap (λ m. key_eq m k) (sym (key_eq→eq i j h))

-- A default is found only where nothing was.
find-record_set_default :
    (j k : RecordKey) (id : Text) (index : RecordIndex)
    → find_entity_by_source_record k (record_set_default j id index)
      ≡ or_else (find_entity_by_source_record k index) (if key_eq j k then some id else none)
unfolding find_entity_by_source_record record_set_default
find-record_set_default j k id [] = refl
find-record_set_default j k id ((i, w) ∷ index) = elim (Bool-cases (key_eq i j)) [
  | inl e ↦ elim (Bool-cases (key_eq i k)) [
    | inl s ↦ rw (e, s) refl
    | inr s ↦ rw (e, s, key_eq_left i j k e ∙ s) (sym (or_else-none _))
  ]
  | inr e ↦ elim (Bool-cases (key_eq i k)) [
    | inl s ↦ rw (e, s) refl
    | inr s ↦ rw (e, s) (find-record_set_default j k id index)
  ]
]

abbrev pub is_record : RecordKey → ErRow → Bool
is_record k row = is_named row && key_eq (record_key row) k

put_records-find :
    (k : RecordKey) (rows : List ErRow) (index : RecordIndex)
    → find_entity_by_source_record k (put_records rows index)
      ≡ or_else (find_entity_by_source_record k index) (row_entity (select (is_record k) rows))
unfolding put_records select
put_records-find k [] index = sym (or_else-none _)
put_records-find k (r ∷ rows) index = elim (Bool-cases (is_named r)) [
  | inr e ↦ rw e (put_records-find k rows index)
  | inl e ↦ rw e (
      put_records-find k rows (record_set_default (record_key r) r.cdm_entity_id index)
      ∙ ap (λ o. or_else o (row_entity (select (is_record k) rows)))
          (find-record_set_default (record_key r) k r.cdm_entity_id index)
      ∙ or_else_assoc (find_entity_by_source_record k index) _ _
      ∙ ap (or_else (find_entity_by_source_record k index)) (here (key_eq (record_key r) k)))
]
  where
    here :
        (b : Bool)
        → or_else
            (if b then some r.cdm_entity_id else none)
            (row_entity (select (is_record k) rows))
          ≡ row_entity (if b then some r else select (is_record k) rows)
    here true = refl
    here false = refl

-- The record by which a snapshot resolves a foreign key is that of the first row of the index with
-- this tenant, type, record id and source system, or the connector where no system is named, among
-- the rows whose type, record id and system are not empty; if there is no such row there is none.
pub load_er_index_snapshot-records :
    (id_columns : List IdColumn) (er_thresholds : List ThresholdRow) (db : Database) (k : RecordKey)
    → find_entity_by_source_record k
        (load_er_index_snapshot id_columns er_thresholds db).source_records_by_entity
      ≡ row_entity (select (is_record k) db.index)
unfolding load_er_index_snapshot find_entity_by_source_record
load_er_index_snapshot-records id_columns er_thresholds db k = put_records-find k db.index []
