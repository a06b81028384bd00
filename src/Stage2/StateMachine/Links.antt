-- ===== src/Stage2/StateMachine/Links.antt =====
-- About the successors that transform/stage2_resolve/state_machine.py writes.
use nexus_spark_lib.Base.{
  Text, ℕ, suc, ◌≡◌, refl, ap, ◌∙◌, inl, inr, Bool, true, false, Option, none, some, List, [], ◌∷◌,
  ◌++◌, codes, text_eq, text_eq→eq, length, is_some, Bool-cases, length-upsert,
}
use nexus_spark_lib.Models.ErTypes.{GoldenRecordState, active, provisional, superseded, tombstoned}
use nexus_spark_lib.Db.Rows.{Database}
use nexus_spark_lib.Db.Chain.{chase, chase_one}
use nexus_spark_lib.Db.GoldenRecords.{
  state_of, get_golden_record_state, upsert_golden_record, resolve_successor, successor_of,
  golden_insert, golden_conflict, is_entity,
}
use nexus_spark_lib.Db.GoldenRecords.Upserts.{
  state-upsert_golden_record, state-upsert_golden_record_ne, successor-upsert_golden_record,
  successor-upsert_golden_record_ne,
}
use nexus_spark_lib.Db.Redirects.{insert_redirect, redirect_of}
use nexus_spark_lib.Db.Redirects.Targets.{redirect_of-insert_redirect}
use nexus_spark_lib.Stage2.StateMachine.{
  activated, create_or_activate, merge, tombstone, mark_provisional,
}

module _ (tenant_id loser_id survivor_id cdm_entity_type : Text) (db : Database) where
  abbrev pub ultimate : Text
  ultimate = (resolve_successor survivor_id db).0

  abbrev pub merged : Database
  merged = (merge tenant_id loser_id survivor_id cdm_entity_type db).1

  abbrev merge_reason : Option Text
  merge_reason = some (codes "merged_into:" ++ ultimate)

  pub successor-merge : successor_of merged.golden loser_id ≡ some ultimate
  unfolding merge resolve_successor insert_redirect
  successor-merge =
      successor-upsert_golden_record loser_id tenant_id cdm_entity_type superseded merge_reason
        (some ultimate) db

  pub successor-merge_ne :
      (other : Text)
      → text_eq loser_id other ≡ false
      → successor_of merged.golden other ≡ successor_of db.golden other
  unfolding merge resolve_successor insert_redirect
  successor-merge_ne other ne =
      successor-upsert_golden_record_ne loser_id tenant_id cdm_entity_type superseded merge_reason
        (some ultimate) db other ne

  pub state-merge : state_of loser_id merged ≡ some superseded
  unfolding merge resolve_successor insert_redirect get_golden_record_state
  state-merge =
      state-upsert_golden_record loser_id tenant_id cdm_entity_type superseded merge_reason
        (some ultimate) db

  pub redirect-merge : redirect_of merged.redirects loser_id ≡ some ultimate
  unfolding merge resolve_successor
  redirect-merge =
      redirect_of-insert_redirect loser_id ultimate tenant_id
        (upsert_golden_record loser_id tenant_id cdm_entity_type superseded merge_reason
          (some ultimate) db).1

  length-merge : (m : ℕ) × (length merged.golden ≡ suc m)
  unfolding merge resolve_successor insert_redirect upsert_golden_record
  length-merge =
      length-upsert (is_entity loser_id)
        (golden_conflict superseded merge_reason (some ultimate) db.now)
        (golden_insert loser_id tenant_id cdm_entity_type superseded merge_reason (some ultimate)
          db.now)
        db.golden

  -- The loser leads to the ultimate survivor, if that is another record and has no successor.
  pub resolve_successor-merge :
      text_eq loser_id ultimate ≡ false
      → successor_of db.golden ultimate ≡ none
      → (resolve_successor loser_id merged).0 ≡ ultimate
  resolve_successor-merge ne last =
      let (m, e) = length-merge in
      resolved merged m e (
        chase_one (successor_of merged.golden) m loser_id ultimate successor-merge
          (successor-merge_ne ultimate ne ∙ last) ne)
    where
      resolved :
          (d : Database) (m : ℕ)
          → length d.golden ≡ suc m
          → chase (successor_of d.golden) (suc (suc m)) [] loser_id ≡ some ultimate
          → (resolve_successor loser_id d).0 ≡ ultimate
      resolved d m e c = unfold resolve_successor in rw (e, c)

  -- If the survivor resolves to the loser, as it does when it was merged into it before, then a
  -- merge leaves the loser as its own successor.
  pub merge_back_loops :
      resolve_successor survivor_id db ≡ (loser_id, db)
      → successor_of merged.golden loser_id ≡ some loser_id
  merge_back_loops e = successor-merge ∙ ap (λ (p : Text × Database). some p.0) e

-- The calls of the state machine.
pub data Event : Type 0 where
  created : (tenant_id cdm_entity_id cdm_entity_type reason : Text) → Event
  merged_into : (tenant_id loser_id survivor_id cdm_entity_type : Text) → Event
  deleted : (tenant_id cdm_entity_id cdm_entity_type : Text) → Event
  queued : (tenant_id cdm_entity_id cdm_entity_type : Text) → Event

abbrev pub apply_event : Event → Database → Database
apply_event (created t e y r) db = (create_or_activate t e y r db).1
apply_event (merged_into t l s y) db = (merge t l s y db).1
apply_event (deleted t e y) db = (tombstone t e y db).1
apply_event (queued t e y) db = (mark_provisional t e y db).1

unfoldable pub run : List Event → Database → Database
run [] db = db
run (e ∷ events) db = run events (apply_event e db)

abbrev pub is_superseded : Option GoldenRecordState → Bool
is_superseded (some superseded) = true
is_superseded other = false

-- A record has a successor exactly while it is SUPERSEDED.
pub record IsLinked (db : Database) : Type 0 where
  pub linked :
      (cdm_entity_id : Text)
      → is_some (successor_of db.golden cdm_entity_id) ≡ is_superseded (state_of cdm_entity_id db)

upsert-IsLinked :
    (e t y : Text) (s : GoldenRecordState) (r n : Option Text) (db : Database)
    → is_some n ≡ is_superseded (some s)
    → IsLinked db
    → IsLinked (upsert_golden_record e t y s r n db).1
upsert-IsLinked e t y s r n db agree h = record {
  linked = λ other. elim (Bool-cases (text_eq e other)) [
    | inl same ↦
        let p : e ≡ other = text_eq→eq e other same in
        rw (← p) (
          rw
            (
              successor-upsert_golden_record e t y s r n db,
              state-upsert_golden_record e t y s r n db,
            )
            agree)
    | inr ne ↦
        rw
          (
            successor-upsert_golden_record_ne e t y s r n db other ne,
            state-upsert_golden_record_ne e t y s r n db other ne,
          )
          (h.linked other)
  ];
}

activated_not_superseded :
    (current : Option GoldenRecordState) → false ≡ is_superseded (some (activated current))
activated_not_superseded none = refl
activated_not_superseded (some active) = refl
activated_not_superseded (some provisional) = refl
activated_not_superseded (some superseded) = refl
activated_not_superseded (some tombstoned) = refl

pub event-IsLinked : (e : Event) (db : Database) → IsLinked db → IsLinked (apply_event e db)
unfolding create_or_activate merge tombstone mark_provisional resolve_successor insert_redirect
    get_golden_record_state
event-IsLinked (created t e y r) db h =
    upsert-IsLinked e t y (activated (state_of e db)) (some r) none db
      (activated_not_superseded (state_of e db)) h
event-IsLinked (merged_into t l s y) db h = record {
  linked =
      (upsert-IsLinked l t y superseded (merge_reason t l s y db) (some (ultimate t l s y db)) db
        refl h).linked;
}
event-IsLinked (deleted t e y) db h =
    upsert-IsLinked e t y tombstoned (some (codes "all_sources_deleted")) none db refl h
event-IsLinked (queued t e y) db h =
    upsert-IsLinked e t y provisional (some (codes "review_queued")) none db refl h

-- If at the start exactly the SUPERSEDED records have a successor, then so it is after every
-- sequence of creations, merges, deletions and reviews.
pub run-IsLinked : (events : List Event) (db : Database) → IsLinked db → IsLinked (run events db)
unfolding run
run-IsLinked [] db h = h
run-IsLinked (e ∷ events) db h = run-IsLinked events (apply_event e db) (event-IsLinked e db h)
