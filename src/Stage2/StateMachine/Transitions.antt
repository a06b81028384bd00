-- ===== src/Stage2/StateMachine/Transitions.antt =====
-- About the states that transform/stage2_resolve/state_machine.py writes.
use nexus_spark_lib.Base.{Text, ◌≡◌, refl, true, false, Option, none, some, codes}
use nexus_spark_lib.Models.ErTypes.{GoldenRecordState, active, provisional, superseded, tombstoned}
use nexus_spark_lib.Db.Rows.{Database}
use nexus_spark_lib.Db.GoldenRecords.{state_of, get_golden_record_state, upsert_golden_record}
use nexus_spark_lib.Db.GoldenRecords.Upserts.{state-upsert_golden_record}
use nexus_spark_lib.Stage2.StateMachine.{
  documented, activated, create_or_activate, tombstone, mark_provisional,
}

module _ (tenant_id cdm_entity_id cdm_entity_type : Text) (db : Database) where
  pub state-create_or_activate :
      (reason : Text)
      → (state_of cdm_entity_id
            (create_or_activate tenant_id cdm_entity_id cdm_entity_type reason db).1
          ≡ some (activated (state_of cdm_entity_id db)))
        × ((create_or_activate tenant_id cdm_entity_id cdm_entity_type reason db).0
            ≡ activated (state_of cdm_entity_id db))
  unfolding create_or_activate
  state-create_or_activate reason = (reached (get_golden_record_state cdm_entity_id db).0, refl)
    where
      reached :
          (current : Option GoldenRecordState)
          → (get_golden_record_state cdm_entity_id
              (upsert_golden_record cdm_entity_id tenant_id cdm_entity_type
                (activated current)
                (some reason)
                none
                (get_golden_record_state cdm_entity_id db).1).1).0
            ≡ some (activated current)
      reached current =
          state-upsert_golden_record cdm_entity_id tenant_id cdm_entity_type (activated current)
            (some reason) none (get_golden_record_state cdm_entity_id db).1

  pub state-tombstone :
      state_of cdm_entity_id (tombstone tenant_id cdm_entity_id cdm_entity_type db).1
      ≡ some tombstoned
  unfolding tombstone
  state-tombstone =
      state-upsert_golden_record cdm_entity_id tenant_id cdm_entity_type tombstoned
        (some (codes "all_sources_deleted")) none db

  pub state-mark_provisional :
      state_of cdm_entity_id (mark_provisional tenant_id cdm_entity_id cdm_entity_type db).1
      ≡ some provisional
  unfolding mark_provisional
  state-mark_provisional =
      state-upsert_golden_record cdm_entity_id tenant_id cdm_entity_type provisional
        (some (codes "review_queued")) none db

-- `activated` makes a documented transition from every state but TOMBSTONED and PROVISIONAL.
documented-activated :
    (current : Option GoldenRecordState)
    → documented current (activated current)
      ≡ (elim current [ some tombstoned ↦ false | some provisional ↦ false | _ ↦ true ])
unfolding documented
documented-activated none = refl
documented-activated (some active) = refl
documented-activated (some provisional) = refl
documented-activated (some superseded) = refl
documented-activated (some tombstoned) = refl
