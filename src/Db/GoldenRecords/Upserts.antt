-- ===== src/Db/GoldenRecords/Upserts.antt =====
-- About the reads of db/golden_records.py after its writes.
use nexus_spark_lib.Base.{
  inr, ap, inl, Text, suc, ◌≡◌, refl, true, false, Option, some, List, [], ◌∷◌, map, arith, text_eq,
  text_eq_iff, text_eq_refl, select, upserted, length, select-upsert_self, select-upsert_other,
  upsert_idem, Option-cases,
}
use nexus_spark_lib.Models.ErTypes.{GoldenRecordState}
use nexus_spark_lib.Db.Rows.{GoldenRow, Database}
use nexus_spark_lib.Db.Chain.{chase, chase_total, visited_before, Reaches, IsEnd}
use nexus_spark_lib.Db.GoldenRecords.{
  is_entity, golden_conflict, golden_insert, upsert_golden_record, row_state, row_successor,
  get_golden_record_state, successor_of, resolve_successor,
}

abbrev pub golden_ids : List GoldenRow → List Text
golden_ids golden = map (λ row. row.cdm_entity_id) golden

-- A row with a successor is a row of the table.
successor_of-within :
    (golden : List GoldenRow) (a b : Text)
    → successor_of golden a ≡ some b
    → visited_before (golden_ids golden) a ≡ true
unfolding successor_of select visited_before
successor_of-within [] a b e = cc
successor_of-within (row ∷ golden) a b e = ground (arith, successor_of-within golden a b)

length-golden_ids : (golden : List GoldenRow) → length (golden_ids golden) ≡ length golden
length-golden_ids [] = refl
length-golden_ids (row ∷ golden) = ap suc (length-golden_ids golden)

-- The loop of `resolve_successor` ends within one step more than there are golden records, cycles
-- or not, and its result is a record on the chain of its start that has no successor or lies on a
-- cycle.
pub resolve_successor_ends :
    (cdm_entity_id : Text) (db : Database)
    → (r : Text) × (chase (successor_of db.golden) (suc (length db.golden)) [] cdm_entity_id
        ≡ some r)
      × ((resolve_successor cdm_entity_id db).0 ≡ r)
      × Reaches (successor_of db.golden) cdm_entity_id r
      × IsEnd (successor_of db.golden) r
unfolding resolve_successor
resolve_successor_ends cdm_entity_id db =
    let (r, e, p, z) =
      chase_total (successor_of db.golden) (golden_ids db.golden) (successor_of-within db.golden)
        cdm_entity_id in
    let e' : chase (successor_of db.golden) (suc (length db.golden)) [] cdm_entity_id ≡ some r =
      rw length-golden_ids at e in
    (r, e', rw e', p, z)

module _ (cdm_entity_id tenant_id cdm_entity_type : Text) (state : GoldenRecordState)
    (reason successor_id : Option Text) (db : Database) where
  abbrev after : Database
  after =
      (upsert_golden_record cdm_entity_id tenant_id cdm_entity_type state reason successor_id db).1

  -- The row that an upsert leaves under its own key.
  pub select-upsert_golden_record :
      select (is_entity cdm_entity_id) after.golden
      ≡ some (
          upserted
            (golden_conflict state reason successor_id db.now)
            (golden_insert cdm_entity_id tenant_id cdm_entity_type state reason successor_id db.now)
            (select (is_entity cdm_entity_id) db.golden))
  unfolding upsert_golden_record
  select-upsert_golden_record =
      select-upsert_self (is_entity cdm_entity_id) _ _ db.golden (text_eq_refl cdm_entity_id)
        (λ x h. h)

  pub select-upsert_golden_record_ne :
      (other : Text)
      → text_eq cdm_entity_id other ≡ false
      → select (is_entity other) after.golden ≡ select (is_entity other) db.golden
  unfolding upsert_golden_record
  select-upsert_golden_record_ne other ne =
      select-upsert_other (is_entity cdm_entity_id) (is_entity other) _ _ db.golden ne
        (λ x h. rw ((text_eq_iff x.cdm_entity_id cdm_entity_id).0 h) ne)
        (λ x h. rw ((text_eq_iff x.cdm_entity_id cdm_entity_id).0 h) ne)

  pub state-upsert_golden_record : (get_golden_record_state cdm_entity_id after).0 ≡ some state
  unfolding get_golden_record_state
  state-upsert_golden_record =
      rw select-upsert_golden_record
        (elim (Option-cases (select (is_entity cdm_entity_id) db.golden)) [
          | inl e ↦ rw e
          | inr (x, e) ↦ rw e
        ])

  pub successor-upsert_golden_record : successor_of after.golden cdm_entity_id ≡ successor_id
  unfolding successor_of
  successor-upsert_golden_record =
      rw select-upsert_golden_record
        (elim (Option-cases (select (is_entity cdm_entity_id) db.golden)) [
          | inl e ↦ rw e
          | inr (x, e) ↦ rw e
        ])

  pub state-upsert_golden_record_ne :
      (other : Text)
      → text_eq cdm_entity_id other ≡ false
      → (get_golden_record_state other after).0 ≡ (get_golden_record_state other db).0
  unfolding get_golden_record_state
  state-upsert_golden_record_ne other ne = ap row_state (select-upsert_golden_record_ne other ne)

  pub successor-upsert_golden_record_ne :
      (other : Text)
      → text_eq cdm_entity_id other ≡ false
      → successor_of after.golden other ≡ successor_of db.golden other
  unfolding successor_of
  successor-upsert_golden_record_ne other ne =
      ap row_successor (select-upsert_golden_record_ne other ne)

  -- A replay of the same upsert in the same transaction changes nothing.
  pub upsert_golden_record_idem :
      (upsert_golden_record cdm_entity_id tenant_id cdm_entity_type state reason successor_id
        after).1
      ≡ after
  unfolding upsert_golden_record
  upsert_golden_record_idem =
      ap (λ golden. record db { golden = golden })
        (upsert_idem (is_entity cdm_entity_id) _ _ db.golden (text_eq_refl cdm_entity_id) (λ x h. h)
          (ground arith) (λ x. ground arith))
