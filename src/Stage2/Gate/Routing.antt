-- ===== src/Stage2/Gate/Routing.antt =====
-- About `run_materialization_gate` of transform/stage2_resolve/materialization_gate.py.
use nexus_spark_lib.Base.{
  sym, Text, Bool, true, false, ◌&&◌, not, ◌≡◌, refl, ◌⊎◌, inl, inr, Option, none, some, List, [],
  ◌∷◌, codes, is_some, Option-cases, All, Among,
}
use nexus_spark_lib.Models.EntityStore.{
  EntityStoreState, cold, warm, hot, EntityStorePresence, classify_entity_store_presence,
}
use nexus_spark_lib.Stage2.Gate.{
  LookupRow, GateInput, GateOutcome, non_empty, extract_field, find_value, first_signal, Identity,
  columns_of, finder, fast_path, identify, gate_of, routed, run_materialization_gate, cold_outcome,
}

abbrev pub is_cold : EntityStoreState → Bool
is_cold cold = true
is_cold _ = false

abbrev pub is_hot : EntityStoreState → Bool
is_hot hot = true
is_hot _ = false

module _ (rows : List LookupRow) (presence : Text → Text → Option EntityStorePresence)
    (signal_a_fn : Option (Text → Text → Option Text)) (i : GateInput) where
  abbrev pub presence_of : Option Text → Option EntityStorePresence
  presence_of none = none
  presence_of (some id) = presence i.tenant_id id

  -- The flags follow from the tier, and the tier from the presence of the identity.
  abbrev pub IsRouted : GateOutcome → Type 0
  IsRouted o =
      (o.materialization ≡ classify_entity_store_presence (presence_of o.cdm_entity_id))
      × (o.presence ≡ presence_of o.cdm_entity_id)
      × (o.proceed_pipeline ≡ not (is_cold o.materialization))
      × (o.write_ai_stores ≡ is_hot o.materialization)
      × (o.register_er_index_only ≡ (is_cold o.materialization && is_some o.cdm_entity_id))
      × (is_some o.skip_reason ≡ is_cold o.materialization)

  routed_flags :
      (state : EntityStoreState) (id : Text) (method : Option Text)
      → classify_entity_store_presence (presence i.tenant_id id) ≡ state
      → IsRouted (routed state id method (presence i.tenant_id id))
  unfolding routed cold_outcome
  routed_flags cold id method e = (sym e, refl, refl, refl, refl, refl)
  routed_flags warm id method e = (sym e, refl, refl, refl, refl, refl)
  routed_flags hot id method e = (sym e, refl, refl, refl, refl, refl)

  gate_of-IsRouted : (found : Identity) → IsRouted (gate_of rows presence i found)
  unfolding gate_of cold_outcome classify_entity_store_presence
  gate_of-IsRouted (none, method) = (refl, refl, refl, refl, refl, refl)
  gate_of-IsRouted (some id, method) =
      routed_flags (classify_entity_store_presence (presence i.tenant_id id)) id method refl

  -- Every outcome of the gate: the tier is the class of the presence row of the identity, COLD
  -- without an identity; the pipeline proceeds exactly if the tier is not COLD; the AI stores are
  -- written exactly if it is HOT; the record is only registered exactly if it is COLD with an
  -- identity; a reason to skip is given exactly if it is COLD.
  pub run_materialization_gate-IsRouted :
      IsRouted (run_materialization_gate rows presence signal_a_fn i)
  unfolding run_materialization_gate
  run_materialization_gate-IsRouted = gate_of-IsRouted (identify rows presence signal_a_fn i)

  abbrev find : Text → Text → Option Text
  find = finder rows presence signal_a_fn i

  -- What the column finds for the record.
  abbrev pub found_by : Text → Option Text
  found_by column = find_value find column (extract_field i.fields column)

  -- Which identity was found, and that those which come before it were not.
  abbrev pub IsIdentity : Identity → Type 0
  IsIdentity found =
      ((id : Text) × (non_empty i.cdm_entity_id ≡ some id) × (found ≡ (some id, none)))
      ⊎ (non_empty i.cdm_entity_id ≡ none)
        × (((id : Text) × (fast_path rows i.tenant_id i.source_connector i.source_record_id
                ≡ some id)
              × (found ≡ (some id, some (codes "fast_path"))))
            ⊎ (fast_path rows i.tenant_id i.source_connector i.source_record_id ≡ none)
              × (((id : Text) × (column : Text) × Among column (columns_of i.deterministic_columns)
                    × (found_by column ≡ some id)
                    × (found ≡ (some id, some (codes "signal_a"))))
                  ⊎ All (λ column. found_by column ≡ none) (columns_of i.deterministic_columns)
                    × (found ≡ (none, none))))

  first_signal_found :
      (columns : List Text)
      → ((id : Text) × (column : Text) × Among column columns
          × (found_by column ≡ some id)
          × (first_signal find i.fields columns ≡ some id))
        ⊎ (All (λ column. found_by column ≡ none) columns
            × (first_signal find i.fields columns ≡ none))
  unfolding first_signal
  first_signal_found [] = inr (tt, refl)
  first_signal_found (column ∷ columns) = elim (Option-cases (found_by column)) [
    | inr (id, e) ↦ inl (id, column, inl refl, e, rw (e, first_signal) refl)
    | inl e ↦ (elim (first_signal_found columns) [
      | inl (id, later, among, f, g) ↦ inl (id, later, inr among, f, rw (e, first_signal) g)
      | inr (nowhere, g) ↦ inr ((e, nowhere), rw (e, first_signal) g)
    ])
  ]

  -- The gate's identity is the given one if it is not empty; else that of the fast path; else that
  -- which some deterministic column finds; and there is none only if none of these finds one.
  pub identify-IsIdentity : IsIdentity (identify rows presence signal_a_fn i)
  unfolding identify
  identify-IsIdentity = elim (Option-cases (non_empty i.cdm_entity_id)) [
    | inr (id, e) ↦ inl (id, e, rw e refl)
    | inl e ↦ inr (
      e,
      elim (Option-cases (fast_path rows i.tenant_id i.source_connector i.source_record_id)) [
        | inr (id, f) ↦ inl (id, f, rw (e, f) refl)
        | inl f ↦ inr (
          f,
          elim (first_signal_found (columns_of i.deterministic_columns)) [
            | inl (id, column, among, g, h) ↦ inl (id, column, among, g, rw (e, f, h) refl)
            | inr (nowhere, h) ↦ inr (nowhere, rw (e, f, h) refl)
          ],
        )
      ],
    )
  ]
