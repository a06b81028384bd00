-- ===== src/Stage2/Crud/Insert.antt =====
-- About `propagate_insert` of transform/stage2_resolve/crud_propagation.py.
use nexus_spark_lib.Base.{
  Text, ◌≡◌, refl, sym, ap, ◌∙◌, inl, inr, false, Option, none, some, List, [], ◌∷◌, codes, text_eq,
  if◌then◌else◌, Bool-cases,
}
use nexus_spark_lib.Models.ErTypes.{GoldenRecordState, active, provisional, superseded, tombstoned}
use nexus_spark_lib.Db.Rows.{Database}
use nexus_spark_lib.Db.GoldenRecords.{state_of, get_golden_record_state, upsert_golden_record}
use nexus_spark_lib.Db.GoldenRecords.Upserts.{
  state-upsert_golden_record_ne, state-upsert_golden_record, upsert_golden_record_idem,
}
use nexus_spark_lib.Db.ErIndex.{SourceKey, Entry, upsert_batch, entity_of}
use nexus_spark_lib.Db.ErIndex.Mapping.{
  Differ, entity_of-upsert_batch, entity_of-upsert_batch_ne, upsert_batch_idem,
}
use nexus_spark_lib.Stage2.StateMachine.{activated, create_or_activate, mark_provisional}
use nexus_spark_lib.Stage2.Crud.{activate, propagate_insert}

abbrev pub target_state : Entry → Option GoldenRecordState → GoldenRecordState
target_state e current = if e.provisional then provisional else activated current

abbrev target_reason : Entry → Text
target_reason e = if e.provisional then codes "review_queued" else codes "insert"

-- Both branches write one row.
activate-eq_upsert :
    (e : Entry) (db : Database)
    → (activate e.key.tenant_id e.provisional e.cdm_entity_id e.cdm_entity_type
        (codes "insert")
        db).1
      ≡ (upsert_golden_record e.cdm_entity_id e.key.tenant_id e.cdm_entity_type
          (target_state e (state_of e.cdm_entity_id db))
          (some (target_reason e))
          none
          db).1
unfolding activate create_or_activate mark_provisional get_golden_record_state
activate-eq_upsert e db = elim (Bool-cases e.provisional) [ inl h ↦ rw h | inr h ↦ rw h ]

target_state_idem :
    (e : Entry) (c : Option GoldenRecordState)
    → target_state e (some (target_state e c)) ≡ target_state e c
target_state_idem e c = elim (Bool-cases e.provisional) [
  | inl h ↦ rw h
  | inr h ↦ rw h (activated_idem c)
]
  where
    activated_idem : (c : Option GoldenRecordState) → activated (some (activated c)) ≡ activated c
    activated_idem none = refl
    activated_idem (some active) = refl
    activated_idem (some provisional) = refl
    activated_idem (some superseded) = refl
    activated_idem (some tombstoned) = refl

module _ (e : Entry) (db : Database) where
  abbrev pub written : Database
  written =
      (upsert_golden_record e.cdm_entity_id e.key.tenant_id e.cdm_entity_type
        (target_state e (state_of e.cdm_entity_id db)) (some (target_reason e)) none db).1

  unfoldable pub inserted : Database
  inserted = (propagate_insert e db).1

  pub inserted-eq : inserted ≡ (upsert_batch (e ∷ []) written).1
  unfolding inserted propagate_insert
  inserted-eq = ap (λ d. (upsert_batch (e ∷ []) d).1) (activate-eq_upsert e db)

  pub state_inserted :
      state_of e.cdm_entity_id inserted ≡ some (target_state e (state_of e.cdm_entity_id db))
  unfolding upsert_batch get_golden_record_state
  state_inserted = rw inserted-eq (
      state-upsert_golden_record e.cdm_entity_id e.key.tenant_id e.cdm_entity_type
        (target_state e (state_of e.cdm_entity_id db)) (some (target_reason e)) none db)

  pub entity_of-inserted : entity_of e.key inserted ≡ some e.cdm_entity_id
  entity_of-inserted = rw inserted-eq (entity_of-upsert_batch e written)

  pub entity_of-inserted_ne :
      (other : SourceKey) → Differ e.key other → entity_of other inserted ≡ entity_of other db
  entity_of-inserted_ne other d =
      rw inserted-eq (entity_of-upsert_batch_ne e written other d ∙ same_index)
    where
      same_index : entity_of other written ≡ entity_of other db
      same_index = unfold upsert_golden_record entity_of in refl

-- An upsert of a golden record that changes nothing changes nothing after a write to the index.
upsert_after_batch :
    (i t y : Text) (s : GoldenRecordState) (r n : Option Text) (es : List Entry) (d : Database)
    → (upsert_golden_record i t y s r n d).1 ≡ d
    → (upsert_golden_record i t y s r n (upsert_batch es d).1).1 ≡ (upsert_batch es d).1
unfolding upsert_golden_record upsert_batch
upsert_after_batch i t y s r n es d h =
    ap (λ (x : Database). record d { golden = x.golden; index = (upsert_batch es d).1.index }) h

module _ (e : Entry) (db : Database) where
  abbrev write : GoldenRecordState → Database → Database
  write s d =
      (upsert_golden_record e.cdm_entity_id e.key.tenant_id e.cdm_entity_type s
        (some (target_reason e)) none d).1

  abbrev goal_state : GoldenRecordState
  goal_state = target_state e (state_of e.cdm_entity_id db)

  written_again : written e (inserted e db) ≡ inserted e db
  written_again =
      ap (λ c. write (target_state e c) (inserted e db)) (state_inserted e db)
      ∙ ap (λ s. write s (inserted e db)) (target_state_idem e (state_of e.cdm_entity_id db))
      ∙ ap (write goal_state) (inserted-eq e db)
      ∙ upsert_after_batch e.cdm_entity_id e.key.tenant_id e.cdm_entity_type goal_state
          (some (target_reason e)) none (e ∷ []) (written e db)
          (upsert_golden_record_idem e.cdm_entity_id e.key.tenant_id e.cdm_entity_type goal_state
            (some (target_reason e)) none db)
      ∙ sym (inserted-eq e db)

  -- The same INSERT once more in the same transaction changes no table.
  pub insert_replay : inserted e (inserted e db) ≡ inserted e db
  insert_replay =
      inserted-eq e (inserted e db)
      ∙ ap (λ d. (upsert_batch (e ∷ []) d).1) (written_again ∙ inserted-eq e db)
      ∙ upsert_batch_idem e (written e db)
      ∙ sym (inserted-eq e db)

module _ (e : Entry) (db : Database) where
  pub provenance_inserted : (inserted e db).provenance ≡ db.provenance
  provenance_inserted = rw inserted-eq (unfold upsert_batch upsert_golden_record in refl)

  pub state_inserted_ne :
      (other : Text)
      → text_eq e.cdm_entity_id other ≡ false
      → state_of other (inserted e db) ≡ state_of other db
  unfolding upsert_batch get_golden_record_state
  state_inserted_ne other ne = rw inserted-eq (
      state-upsert_golden_record_ne e.cdm_entity_id e.key.tenant_id e.cdm_entity_type
        (target_state e (state_of e.cdm_entity_id db)) (some (target_reason e)) none db other ne)
