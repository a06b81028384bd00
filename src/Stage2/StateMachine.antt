-- ===== src/Stage2/StateMachine.antt =====
-- nexus_spark_lib/transform/stage2_resolve/state_machine.py: GoldenRecordStateMachine. The
-- connection is the database of the action; the tenant is an argument.
pub mod Transitions
pub mod Links
use nexus_spark_lib.Base.{Text, Bool, true, false, Option, none, some, ◌++◌, codes}
use nexus_spark_lib.Models.ErTypes.{GoldenRecordState, active, provisional, superseded, tombstoned}
use nexus_spark_lib.Db.Rows.{Action, pure, ◌>>=◌, ◌>>◌}
use nexus_spark_lib.Db.GoldenRecords.{
  get_golden_record_state, upsert_golden_record, resolve_successor,
}
use nexus_spark_lib.Db.Redirects.{insert_redirect}

-- The allowed transitions that the head of the module lists; `none` is NEW.
unfoldable pub documented : Option GoldenRecordState → GoldenRecordState → Bool
documented none active = true
documented (some active) active = true
documented (some active) superseded = true
documented (some provisional) active = true
documented (some superseded) active = true
documented current tombstoned = true
documented current next = false

abbrev pub activated : Option GoldenRecordState → GoldenRecordState
activated none = active
activated (some tombstoned) = active
activated (some superseded) = active
activated (some active) = active
activated (some provisional) = provisional

module _ (tenant_id : Text) where
  unfoldable pub create_or_activate : Text → Text → Text → Action GoldenRecordState
  create_or_activate cdm_entity_id cdm_entity_type reason = do
    current ← get_golden_record_state cdm_entity_id
    upsert_golden_record cdm_entity_id tenant_id cdm_entity_type (activated current) (some reason)
        none
    pure (activated current)

  unfoldable pub merge : Text → Text → Text → Action (Unit {0})
  merge loser_id survivor_id cdm_entity_type = do
    ultimate_survivor ← resolve_successor survivor_id
    upsert_golden_record loser_id tenant_id cdm_entity_type superseded
        (some (codes "merged_into:" ++ ultimate_survivor)) (some ultimate_survivor)
    insert_redirect loser_id ultimate_survivor tenant_id

  unfoldable pub tombstone : Text → Text → Action (Unit {0})
  tombstone cdm_entity_id cdm_entity_type =
      upsert_golden_record cdm_entity_id tenant_id cdm_entity_type tombstoned
        (some (codes "all_sources_deleted")) none

  unfoldable pub mark_provisional : Text → Text → Action (Unit {0})
  mark_provisional cdm_entity_id cdm_entity_type =
      upsert_golden_record cdm_entity_id tenant_id cdm_entity_type provisional
        (some (codes "review_queued")) none
