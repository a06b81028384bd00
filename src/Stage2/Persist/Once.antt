-- ===== src/Stage2/Persist/Once.antt =====
-- About `persist_entity_resolution_outcome` of db/resolve_persist.py.
use nexus_spark_lib.Base.{
  Text, Bool, true, false, ◌&&◌, ◌≡◌, refl, ap, ◌∙◌, inl, inr, Option, some, [], ◌∷◌, codes,
  if◌then◌else◌, Bool-cases, any,
}
use nexus_spark_lib.Models.ErTypes.{GoldenRecordState, provisional}
use nexus_spark_lib.Db.Rows.{Database}
use nexus_spark_lib.Db.GoldenRecords.{state_of, get_golden_record_state, upsert_golden_record}
use nexus_spark_lib.Db.ErIndex.{SourceKey, upsert_rows, upsert_batch, entity_of}
use nexus_spark_lib.Db.ErIndex.Mapping.{entity_of-upsert_batch}
use nexus_spark_lib.Db.Redirects.{queue_for_review, is_pair}
use nexus_spark_lib.Db.Redirects.Targets.{any-queue_for_review}
use nexus_spark_lib.Stage2.StateMachine.{activated, create_or_activate, mark_provisional}
use nexus_spark_lib.Stage2.StateMachine.Transitions.{
  state-create_or_activate, state-mark_provisional,
}
use nexus_spark_lib.Stage2.Crud.{activate}
use nexus_spark_lib.Stage2.Persist.{
  Outcome, index_entry, needs_review, review, persist_entity_resolution_outcome,
}

module _ (o : Outcome) where
  abbrev activated_db : Database → Database
  activated_db db =
      (activate o.key.tenant_id o.er_is_provisional o.cdm_entity_id o.cdm_entity_type
        (codes "resolve") db).1

  abbrev placed : Database → Database
  placed db = (upsert_batch (index_entry o ∷ []) (activated_db db)).1

  unfoldable pub persisted : Bool → Database → Database
  persisted emit db = (persist_entity_resolution_outcome o emit db).1

  -- The state that the record reaches from its current one.
  abbrev pub reached : Option GoldenRecordState → GoldenRecordState
  reached current = if o.er_is_provisional then provisional else activated current

  state_activated :
      (db : Database)
      → state_of o.cdm_entity_id (activated_db db) ≡ some (reached (state_of o.cdm_entity_id db))
  unfolding activate
  state_activated db = elim (Bool-cases o.er_is_provisional) [
    | inl e ↦ rw e (state-mark_provisional o.key.tenant_id o.cdm_entity_id o.cdm_entity_type db)
    | inr e ↦
        rw e
          (state-create_or_activate o.key.tenant_id o.cdm_entity_id o.cdm_entity_type db
            (codes "resolve")).0
  ]

  review_keeps :
      (b : Bool) (d : Database)
      → ((review o b d).1.golden ≡ d.golden) × ((review o b d).1.index ≡ d.index)
  unfolding review queue_for_review
  review_keeps false d = (refl, refl)
  review_keeps true d =
      elim (Bool-cases (
        any (is_pair o.key.tenant_id o.cdm_entity_type o.cdm_entity_id o.er_review_peer_cdm_id)
          d.reviews)) [ inl e ↦ rw e (refl, refl) | inr e ↦ rw e (refl, refl) ]

  state_by_golden :
      (i : Text) (d d' : Database) → d.golden ≡ d'.golden → state_of i d ≡ state_of i d'
  unfolding get_golden_record_state
  state_by_golden i d d' e = rw e refl

  entity_by_index :
      (k : SourceKey) (d d' : Database) → d.index ≡ d'.index → entity_of k d ≡ entity_of k d'
  unfolding entity_of
  entity_by_index k d d' e = rw e refl

  state_placed :
      (db : Database)
      → state_of o.cdm_entity_id (placed db) ≡ some (reached (state_of o.cdm_entity_id db))
  unfolding upsert_batch
  state_placed db =
      state_by_golden o.cdm_entity_id (placed db) (activated_db db) refl ∙ state_activated db

  -- After an outcome is persisted, its source is mapped to its record, and the record is
  -- PROVISIONAL if the outcome is, and otherwise in the state to which an activation takes its
  -- state before.
  pub persisted_placed :
      (emit : Bool) (db : Database)
      → (state_of o.cdm_entity_id (persisted emit db)
          ≡ some (reached (state_of o.cdm_entity_id db)))
        × (entity_of o.key (persisted emit db) ≡ some o.cdm_entity_id)
  unfolding persisted persist_entity_resolution_outcome
  persisted_placed emit db =
      let keeps = review_keeps (needs_review o) (placed db) in
      (
        state_by_golden o.cdm_entity_id (review o (needs_review o) (placed db)).1 (placed db)
              keeps.0
            ∙ state_placed db,
        entity_by_index o.key (review o (needs_review o) (placed db)).1 (placed db) keeps.1
            ∙ unfold index_entry in entity_of-upsert_batch (index_entry o) (activated_db db),
      )

  review_again :
      (d : Database)
      → any
          (is_pair o.key.tenant_id o.cdm_entity_type o.cdm_entity_id o.er_review_peer_cdm_id)
          d.reviews
        ≡ true
      → (b : Bool) → (review o b d).0 ≡ false
  unfolding review queue_for_review
  review_again d e false = refl
  review_again d e true = rw e refl

  reviews_placed : (db : Database) → (placed db).reviews ≡ db.reviews
  unfolding upsert_batch activate create_or_activate mark_provisional get_golden_record_state
      upsert_golden_record
  reviews_placed db = elim (Bool-cases o.er_is_provisional) [
    | inl e ↦ rw e refl
    | inr e ↦ rw e refl
  ]

  index_activated :
      (db : Database) → ((activated_db db).index ≡ db.index) × ((activated_db db).now ≡ db.now)
  unfolding activate create_or_activate mark_provisional get_golden_record_state
      upsert_golden_record
  index_activated db = elim (Bool-cases o.er_is_provisional) [
    | inl e ↦ rw e (refl, refl)
    | inr e ↦ rw e (refl, refl)
  ]

  review_now : (b : Bool) (d : Database) → (review o b d).1.now ≡ d.now
  unfolding review queue_for_review
  review_now false d = refl
  review_now true d =
      elim (Bool-cases (
        any (is_pair o.key.tenant_id o.cdm_entity_type o.cdm_entity_id o.er_review_peer_cdm_id)
          d.reviews)) [ inl e ↦ rw e refl | inr e ↦ rw e refl ]

  pub now_persisted : (emit : Bool) (db : Database) → (persisted emit db).now ≡ db.now
  unfolding persisted persist_entity_resolution_outcome upsert_batch
  now_persisted emit db = review_now (needs_review o) (placed db) ∙ (index_activated db).1

  -- The index after an outcome is persisted is the index before with its entry put in.
  pub index_persisted :
      (emit : Bool) (db : Database)
      → (persisted emit db).index ≡ upsert_rows db.now (index_entry o ∷ []) db.index
  unfolding persisted persist_entity_resolution_outcome upsert_batch
  index_persisted emit db =
      let same = index_activated db in
      (review_keeps (needs_review o) (placed db)).1
      ∙ ap (λ now. upsert_rows now (index_entry o ∷ []) (activated_db db).index) same.1
      ∙ ap (upsert_rows db.now (index_entry o ∷ [])) same.0

  pair_queued :
      (emit : Bool) (db : Database)
      → needs_review o ≡ true
      → any
          (is_pair o.key.tenant_id o.cdm_entity_type o.cdm_entity_id o.er_review_peer_cdm_id)
          (persisted emit db).reviews
        ≡ true
  unfolding persisted persist_entity_resolution_outcome review
  pair_queued emit db e =
      rw (persisted, persist_entity_resolution_outcome, e, review)
        (any-queue_for_review o.key.tenant_id o.cdm_entity_type o.cdm_entity_id
          o.er_review_peer_cdm_id o.er_confidence o.breakdown (placed db))

  -- When an outcome is persisted a second time, no review event is published, whichever way the
  -- first time was.
  pub persisted_once :
      (emit emit_again : Bool) (db : Database)
      → (persist_entity_resolution_outcome o emit_again (persisted emit db)).0 ≡ false
  unfolding persist_entity_resolution_outcome
  persisted_once emit emit_again db = elim (Bool-cases (needs_review o)) [
    | inl e ↦
        ap (λ (r : Bool). r && emit_again)
          (review_again (placed (persisted emit db))
            (rw (reviews_placed (persisted emit db)) (pair_queued emit db e)) (needs_review o))
    | inr e ↦ rw (e, review) refl
  ]
