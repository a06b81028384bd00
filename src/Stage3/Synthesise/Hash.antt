-- ===== src/Stage3/Synthesise/Hash.antt =====
-- About the provenance hash in `_synthesise_record` of transform/stage3_synthesise.py.
use nexus_spark_lib.Base.{
  Text, ◌≡◌, refl, sym, ◌∙◌, inl, inr, Bool, true, false, not, ◌||◌, Option, none, some, List, [],
  ◌∷◌, text_eq, text_eq→eq, text_eq_refl, Dict, dict_get, keys, Bool-cases,
}
use nexus_spark_lib.Models.Survivorship.{ProvenanceRow, SynthesisResult}
use nexus_spark_lib.Hashing.{Digest}
use nexus_spark_lib.Stage3.Context.{
  Scalar, NormalisedRecord, ResolutionResult, ProvenanceChange, SynthesisContext, IsStore,
}
use nexus_spark_lib.Stage3.Synthesise.{
  compute_provenance_hash, wins, handle_cleared_attribute_on_update, value_outcome, incoming_value,
  synthesise_attribute, synthesise_attributes, write_changes, store_hash, is_changed, set_changed,
  pop_deleted, synthesise_scope, synthesise_resolved, synthesise_record,
  parse_changed_canonical_attributes,
}

module _ {S : Type 0} (sha256 : Digest) (ctx : SynthesisContext S) (laws : IsStore ctx) where
  hash-cleared :
      (e attr_name : Text) (r : NormalisedRecord) (o : Option ProvenanceRow) (s : S)
      → ctx.get_hash (handle_cleared_attribute_on_update sha256 ctx attr_name r o s).1 e
        ≡ ctx.get_hash s e
  unfolding handle_cleared_attribute_on_update
  hash-cleared e attr_name r none s = refl
  hash-cleared e attr_name r (some existing) s = elim (Bool-cases (wins r existing)) [
    | inl h ↦
        rw h (laws.hash_delete e r.cdm_entity_id attr_name r.connector_id r.source_record_id s)
    | inr h ↦ rw h
  ]

  hash-value_outcome :
      (e : Text) (r : NormalisedRecord) (existing : Dict ProvenanceRow) (attr_name : Text)
      (v : Option Scalar) (s : S)
      → ctx.get_hash (value_outcome sha256 ctx r existing attr_name v s).1 e ≡ ctx.get_hash s e
  unfolding value_outcome
  hash-value_outcome e r existing attr_name none s =
      hash-cleared e attr_name r (dict_get attr_name existing) s
  hash-value_outcome e r existing attr_name (some v) s = refl

  hash-synthesise_attribute :
      (e : Text) (r : NormalisedRecord) (existing : Dict ProvenanceRow) (attr_name : Text) (s : S)
      → ctx.get_hash (synthesise_attribute sha256 ctx r existing attr_name s).1 e ≡ ctx.get_hash s e
  unfolding synthesise_attribute
  hash-synthesise_attribute e r existing attr_name s =
      hash-value_outcome e r existing attr_name (incoming_value r attr_name) s

  hash-synthesise_attributes :
      (e : Text) (r : NormalisedRecord) (existing : Dict ProvenanceRow) (names : List Text) (s : S)
      → ctx.get_hash (synthesise_attributes sha256 ctx r existing names s).1 e ≡ ctx.get_hash s e
  unfolding synthesise_attributes
  hash-synthesise_attributes e r existing [] s = refl
  hash-synthesise_attributes e r existing (a ∷ names) s =
      hash-synthesise_attributes e r existing names
        (synthesise_attribute sha256 ctx r existing a s).1
      ∙ hash-synthesise_attribute e r existing a s

  hash-write_changes :
      (e : Text) (changes : List ProvenanceChange) (s : S)
      → ctx.get_hash (write_changes sha256 ctx changes s).1 e ≡ ctx.get_hash s e
  unfolding write_changes
  hash-write_changes e [] s = refl
  hash-write_changes e (c ∷ changes) s =
      hash-write_changes e changes (ctx.upsert_returning_changed c.row s).1
      ∙ laws.hash_upsert e c.row s

  -- The reported hash is the stored one, and it is reported as changed exactly if it is another
  -- than before.
  abbrev IsHashed : Text → S → (Text × Bool) × S → Type 0
  IsHashed e s ((hash, changed), after) =
      (hash ≡ ctx.get_hash after e)
      × (changed ≡ not (text_eq (ctx.get_hash after e) (ctx.get_hash s e)))

  IsHashed-store_hash :
      (e : Text) (recompute : Bool) (updated : Dict ProvenanceRow) (s : S)
      → IsHashed e s (store_hash sha256 ctx e recompute updated s)
  unfolding store_hash
  IsHashed-store_hash e false updated s = (refl, rw (text_eq_refl (ctx.get_hash s e)))
  IsHashed-store_hash e true updated s =
      let h = compute_provenance_hash sha256 updated in
      elim (Bool-cases (text_eq h (ctx.get_hash s e))) [
        | inl same ↦
            rw same (text_eq→eq h (ctx.get_hash s e) same, rw (text_eq_refl (ctx.get_hash s e)))
        | inr other ↦ rw other (sym (laws.hash_written e h s), rw (laws.hash_written e h s, other))
      ]

  abbrev IsResult : Text → S → SynthesisResult × S → Type 0
  IsResult e s (result, after) =
      (result.provenance_hash ≡ ctx.get_hash after e)
      × (result.hash_changed ≡ not (text_eq (ctx.get_hash after e) (ctx.get_hash s e)))

  hashed-synthesise_scope :
      (r : NormalisedRecord) (is_new : Bool) (names : List Text) (s : S)
      → IsResult r.cdm_entity_id s (synthesise_scope sha256 ctx r is_new names s)
  unfolding synthesise_scope
  hashed-synthesise_scope r is_new names s =
      let e = r.cdm_entity_id in
      let existing = ctx.get_all s e in
      let (outcome, s1) = synthesise_attributes sha256 ctx r existing names s in
      let (written, s2) = write_changes sha256 ctx outcome.changes s1 in
      let updated =
        pop_deleted sha256 ctx outcome.rows_to_delete
          (set_changed sha256 ctx outcome.changes existing) in
      let same : ctx.get_hash s2 e ≡ ctx.get_hash s e =
        hash-write_changes e outcome.changes s1 ∙ hash-synthesise_attributes e r existing names s in
      rw (← same) (
        IsHashed-store_hash e (is_changed sha256 ctx outcome.rows_to_delete written || is_new)
          updated s2)

  abbrev resolved_record : NormalisedRecord → ResolutionResult → NormalisedRecord
  resolved_record r resolution = record r {
    cdm_entity_id = resolution.cdm_entity_id;
    er_confidence = resolution.confidence;
  }

  hashed-synthesise_resolved :
      (r : NormalisedRecord) (is_new : Bool) (scope : Option (List Text)) (s : S)
      → IsResult r.cdm_entity_id s (synthesise_resolved sha256 ctx r is_new scope s)
  unfolding synthesise_resolved
  hashed-synthesise_resolved r is_new none s =
      hashed-synthesise_scope r is_new (keys r.canonical_fields) s
  hashed-synthesise_resolved r is_new (some []) s =
      (refl, rw (text_eq_refl (ctx.get_hash s r.cdm_entity_id)))
  hashed-synthesise_resolved r is_new (some (a ∷ names)) s =
      hashed-synthesise_scope r is_new (a ∷ names) s

  -- For stores whose hash of a record is changed by its own writes only, which it then returns, and
  -- a resolution that is not provisional: the reported provenance hash is the one stored
  -- afterwards, and `hash_changed` is true exactly if it is another than the one stored before.
  pub synthesise_record_hash :
      (r : NormalisedRecord) (resolution : ResolutionResult) (s : S)
      → resolution.is_provisional ≡ false
      → ((synthesise_record sha256 ctx r resolution s).0.provenance_hash
          ≡ ctx.get_hash (synthesise_record sha256 ctx r resolution s).1 resolution.cdm_entity_id)
        × ((synthesise_record sha256 ctx r resolution s).0.hash_changed
            ≡ not (
                text_eq
                  (ctx.get_hash
                    (synthesise_record sha256 ctx r resolution s).1
                    resolution.cdm_entity_id)
                  (ctx.get_hash s resolution.cdm_entity_id)))
  unfolding synthesise_record
  synthesise_record_hash r resolution s firm = rw firm (
      hashed-synthesise_resolved (resolved_record r resolution) resolution.is_new_entity
        (parse_changed_canonical_attributes r.source_op r.changed_canonical_attributes_json) s)
