-- ===== src/Stage2/Cold/Registered.antt =====
-- About `persist_cold_er_rows` of transform/pipeline.py.
use nexus_spark_lib.Base.{
  Text, ℕ, suc, ◌+◌, ◌≡◌, refl, ap, ◌∙◌, false, List, [], ◌∷◌, map, keep, length, arith, Bool-cases,
  inl, inr,
}
use nexus_spark_lib.Db.Rows.{Database}
use nexus_spark_lib.Db.ErIndex.{Entry, upsert_rows}
use nexus_spark_lib.Stage2.Persist.{index_entry}
use nexus_spark_lib.Stage2.Persist.Once.{persisted, index_persisted, now_persisted}
use nexus_spark_lib.Stage2.Cold.{ColdRow, has_id, cold_outcome, persist_rows, persist_cold_er_rows}

module _ (connector_id source_table : Text) where
  abbrev pub entries_of : List ColdRow → List Entry
  entries_of rows =
      map (λ row. index_entry (cold_outcome connector_id source_table row)) (keep has_id rows)

  persist_rows-index :
      (rows : List ColdRow) (count : ℕ) (db : Database)
      → let (n, after) = persist_rows connector_id source_table rows count db in
        (n ≡ count + length (keep has_id rows))
        × (after.index ≡ upsert_rows db.now (entries_of rows) db.index)
  unfolding persist_rows keep upsert_rows persisted
  persist_rows-index [] count db = (omega arith, refl)
  persist_rows-index (row ∷ rows) count db = elim (Bool-cases (has_id row)) [
    | inr e ↦ rw e (persist_rows-index rows count db)
    | inl e ↦
        let o = cold_outcome connector_id source_table row in
        let (p, q) = persist_rows-index rows (suc count) (persisted o false db) in
        rw e (
          p ∙ omega arith,
          q
              ∙ ap (λ now. upsert_rows now (entries_of rows) (persisted o false db).index)
                  (now_persisted o false db)
              ∙ ap (upsert_rows db.now (entries_of rows)) (index_persisted o false db),
        )
  ]

  pub persist_cold_er_rows-index :
      (rows : List ColdRow) (db : Database)
      → let (n, after) = persist_cold_er_rows connector_id source_table rows db in
        (n ≡ length (keep has_id rows))
        × (after.index ≡ upsert_rows db.now (entries_of rows) db.index)
  unfolding persist_cold_er_rows
  persist_cold_er_rows-index rows db =
      let (p, q) = persist_rows-index rows 0 db in (p ∙ omega arith, q)
