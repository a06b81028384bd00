-- ===== src/Stage2/ForeignKeys/Targets.antt =====
-- About the targets that transform/fk_target_resolution.py finds.
use nexus_spark_lib.Base.{
  Text, ◌≡◌, refl, ap, inl, inr, true, false, Option, none, some, [], ◌∷◌, arith, non_empty,
  text_eq_iff, lower, All, Among, Bool-cases, Dict,
}
use nexus_spark_lib.Stage3.Context.{Scalar}
use nexus_spark_lib.Stage2.ForeignKeys.{
  RecordKey, RecordIndex, key_eq, fits, find_entity_by_source_record, scan_index, hit_or,
  lookup_target, FkEntry, FkField, bare, entry, filled, looks_like_fk, infer_fk_target_entity_type,
  set_resolved, resolve_typed, resolve_value, resolve_fk_field, resolve_fk_targets_in_fields,
}

-- The id of a row of the index of the key's tenant and record id, and of its type in any case; or
-- there is no such row.
abbrev pub IsTarget : RecordKey → RecordIndex → Option Text → Type 0
IsTarget key index none = All (λ row. fits key row.0 ≡ false) index
IsTarget key index (some id) = (k : RecordKey) × Among (k, id) index × (fits key k ≡ true)

IsTarget-later :
    (key k : RecordKey) (i : Text) (index : RecordIndex) (o : Option Text)
    → fits key k ≡ false
    → IsTarget key index o
    → IsTarget key ((k, i) ∷ index) o
IsTarget-later key k i index none e t = (e, t)
IsTarget-later key k i index (some id) e (k', m, f) = (k', inr m, f)

scan_index-IsTarget :
    (key : RecordKey) (index : RecordIndex) → IsTarget key index (scan_index key index)
unfolding scan_index
scan_index-IsTarget key [] = tt
scan_index-IsTarget key ((k, id) ∷ index) = elim (Bool-cases (fits key k)) [
  | inl e ↦ rw e (k, inl refl, e)
  | inr e ↦ rw e (IsTarget-later key k id index _ e (scan_index-IsTarget key index))
]

key_eq→fits : (k key : RecordKey) → key_eq k key ≡ true → fits key k ≡ true
key_eq→fits k key e = ground (
  arith,
  text_eq_iff k.cdm_entity_type key.cdm_entity_type,
  text_eq_iff (lower k.cdm_entity_type) (lower key.cdm_entity_type),
)

find-IsTarget :
    (key : RecordKey) (index : RecordIndex) (id : Text)
    → find_entity_by_source_record key index ≡ some id
    → IsTarget key index (some id)
unfolding find_entity_by_source_record
find-IsTarget key [] id e = cc
find-IsTarget key ((k, i) ∷ index) id e = elim (Bool-cases (key_eq k key)) [
  | inl h ↦ let e' : some i ≡ some id = rw h at e in (k, inl (cc), key_eq→fits k key h)
  | inr h ↦ let (k', m, f) = find-IsTarget key index id (rw h at e) in (k', inr m, f)
]

hit_or-IsTarget :
    (key : RecordKey) (index : RecordIndex) (hit : Option Text)
    → ((id : Text) → hit ≡ some id → IsTarget key index (some id))
    → IsTarget key index (hit_or hit (scan_index key index))
hit_or-IsTarget key index none h = scan_index-IsTarget key index
hit_or-IsTarget key index (some []) h = scan_index-IsTarget key index
hit_or-IsTarget key index (some (c ∷ id)) h = h (c ∷ id) refl

-- For a record id that is not empty, the target that is found is the id of a row of the index with
-- that tenant, that record id and that type up to case; if none is found, there is no such row.
pub lookup_target-IsTarget :
    (index : RecordIndex) (key : RecordKey)
    → non_empty key.source_record_id ≡ true
    → IsTarget key index (lookup_target index key)
unfolding lookup_target
lookup_target-IsTarget index key present = elim (Bool-cases (non_empty key.source_system)) [
  | inl e ↦
      rw (present, e)
        (hit_or-IsTarget key index (find_entity_by_source_record key index)
          (find-IsTarget key index))
  | inr e ↦ rw (present, e) (scan_index-IsTarget key index)
]

module _ (tenant_id source_system : Text) (er_index : RecordIndex) where
  set_resolved_idem :
      (o : Option Text) (field : FkEntry)
      → set_resolved o (set_resolved o field) ≡ set_resolved o field
  set_resolved_idem none field = refl
  set_resolved_idem (some []) field = refl
  set_resolved_idem (some (c ∷ id)) field = refl

  -- What a field is resolved by does not depend on what it was resolved to.
  resolve_typed_idem :
      (target : Option Text) (v : Scalar) (field : FkEntry)
      → resolve_typed tenant_id source_system er_index target v
          (resolve_typed tenant_id source_system er_index target v field)
        ≡ resolve_typed tenant_id source_system er_index target v field
  resolve_typed_idem none v field = refl
  resolve_typed_idem (some t) v field = set_resolved_idem _ field

  -- The fields that decide how a field is resolved.
  record SameInput (a b : FkEntry) : Type 0 where
    pub same_value : a.value ≡ b.value
    pub same_kind : a.attribute_kind ≡ b.attribute_kind
    pub same_target : a.fk_target_entity_type ≡ b.fk_target_entity_type

  set_resolved-SameInput :
      (o : Option Text) (field : FkEntry) → SameInput (set_resolved o field) field
  set_resolved-SameInput none field = ground arith
  set_resolved-SameInput (some []) field = ground arith
  set_resolved-SameInput (some (c ∷ id)) field = ground arith

  resolve_typed-SameInput :
      (target : Option Text) (v : Scalar) (field : FkEntry)
      → SameInput (resolve_typed tenant_id source_system er_index target v field) field
  resolve_typed-SameInput none v field = ground arith
  resolve_typed-SameInput (some t) v field = set_resolved-SameInput _ field

  looks_like_fk_cong :
      (name : Text) (a b : FkEntry) → SameInput a b → looks_like_fk name a ≡ looks_like_fk name b
  unfolding looks_like_fk
  looks_like_fk_cong name a b s = rw (s.same_kind, s.same_target) refl

  resolve_value_idem :
      (name : Text) (o : Option Scalar) (field : FkEntry)
      → resolve_value tenant_id source_system er_index name o
          (resolve_value tenant_id source_system er_index name o field)
        ≡ resolve_value tenant_id source_system er_index name o field
  resolve_value_idem name none field = refl
  resolve_value_idem name (some v) field = elim (Bool-cases (looks_like_fk name field)) [
    | inl e ↦
        let target = infer_fk_target_entity_type name field.fk_target_entity_type in
        let s = resolve_typed-SameInput target v field in
        rw (e, looks_like_fk_cong name _ field s, e, s.same_target)
          (resolve_typed_idem target v field)
    | inr e ↦ rw (e, e) refl
  ]

  resolve_value-SameInput :
      (name : Text) (o : Option Scalar) (field : FkEntry)
      → SameInput (resolve_value tenant_id source_system er_index name o field) field
  resolve_value-SameInput name none field = ground arith
  resolve_value-SameInput name (some v) field = elim (Bool-cases (looks_like_fk name field)) [
    | inl e ↦ rw e (
        resolve_typed-SameInput (infer_fk_target_entity_type name field.fk_target_entity_type) v
          field)
    | inr e ↦ rw e (record { same_value = refl; same_kind = refl; same_target = refl })
  ]

  resolve_fk_field_idem :
      (name : Text) (field : FkField)
      → resolve_fk_field tenant_id source_system er_index name
          (resolve_fk_field tenant_id source_system er_index name field)
        ≡ resolve_fk_field tenant_id source_system er_index name field
  unfolding resolve_fk_field
  resolve_fk_field_idem name (bare v) = refl
  resolve_fk_field_idem name (entry field) =
      let s = resolve_value-SameInput name (filled field.value) field in
      rw s.same_value (ap (λ f. entry f) (resolve_value_idem name (filled field.value) field))

  -- To resolve the foreign keys of a row's fields a second time against the same index changes
  -- nothing.
  pub resolve_fk_targets_in_fields_idem :
      (fields : Dict FkField)
      → resolve_fk_targets_in_fields tenant_id source_system er_index
          (resolve_fk_targets_in_fields tenant_id source_system er_index fields)
        ≡ resolve_fk_targets_in_fields tenant_id source_system er_index fields
  unfolding resolve_fk_targets_in_fields
  resolve_fk_targets_in_fields_idem [] = refl
  resolve_fk_targets_in_fields_idem ((name, field) ∷ fields) =
      cc (resolve_fk_field_idem name field, resolve_fk_targets_in_fields_idem fields)
