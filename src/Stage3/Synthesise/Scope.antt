-- ===== src/Stage3/Synthesise/Scope.antt =====
-- About the scope of `_synthesise_record` of transform/stage3_synthesise.py.
use nexus_spark_lib.Base.{
  Text, ◌≡◌, refl, inl, inr, Bool, not, Option, none, some, List, [], ◌∷◌, keep, All, All-Among,
  All-append, Among, Dict, dict_get, Bool-cases,
}
use nexus_spark_lib.Models.Survivorship.{SurvivorshipRule, ProvenanceRow, SynthesisResult}
use nexus_spark_lib.Hashing.{Digest}
use nexus_spark_lib.Stage3.Context.{
  Scalar, NormalisedRecord, ResolutionResult, ErIndexEntry, ProvenanceChange, SynthesisContext,
  IsProvenanceStore,
}
use nexus_spark_lib.Stage3.Elect.{re_elect_winner}
use nexus_spark_lib.Stage3.Elect.Elected.{attribute-re_elect_winner}
use nexus_spark_lib.Stage3.Evaluate.Replacement.{attribute-evaluate_survivorship}
use nexus_spark_lib.Stage3.Evaluate.{Standing, standing, evaluate_survivorship, make_provenance_row}
use nexus_spark_lib.Stage3.Synthesise.{
  Deletion, Outcome, wins, is_record_source, rule_for, read_source, cleared_outcome,
  handle_cleared_attribute_on_update, evaluated_outcome, value_outcome, incoming_value,
  synthesise_attribute, synthesise_attributes, changed_rows, synthesise_scope, synthesise_resolved,
  synthesise_record, write_changes, parse_changed_canonical_attributes,
}
use nexus_spark_lib.Stage3.Synthesise.Frame.{
  SameOutside, SameOutside-refl, SameOutside-trans, SameOutside-attributes,
  SameOutside-write_changes, SameOutside-store_hash,
}

module _ {S : Type 0} (sha256 : Digest) (ctx : SynthesisContext S) where
  abbrev ChangesWithin : List Text → List ProvenanceChange → Type 0
  ChangesWithin names changes = All (λ c. Among c.row.attribute_name names) changes

  -- The rows of a provenance are stored under their own attributes.
  abbrev IsNamed : Dict ProvenanceRow → Type 0
  IsNamed existing =
      (a : Text) (row : ProvenanceRow) → dict_get a existing ≡ some row → row.attribute_name ≡ a

  abbrev DeletionsWithin : List Text → List Deletion → Type 0
  DeletionsWithin names deletions = All (λ d. Among d.1 names) deletions

  abbrev IsScoped : List Text → Outcome → Type 0
  IsScoped names o = ChangesWithin names o.changes × DeletionsWithin names o.rows_to_delete

  IsScoped-evaluated :
      (names : List Text) (attr_name : Text) (v : Scalar) (r : NormalisedRecord)
      (existing : Option ProvenanceRow) (rule : SurvivorshipRule) (stand : ProvenanceRow → Standing)
      → ((row : ProvenanceRow) → existing ≡ some row → row.attribute_name ≡ attr_name)
      → Among attr_name names
      → IsScoped names (
          evaluated_outcome sha256 ctx
            (evaluate_survivorship sha256 attr_name v r existing rule stand))
  IsScoped-evaluated names attr_name v r none rule stand named h =
      unfold evaluate_survivorship make_provenance_row in ((h, tt), tt)
  IsScoped-evaluated names attr_name v r (some existing) rule stand named h =
      of_change (evaluate_survivorship sha256 attr_name v r (some existing) rule stand) refl
    where
      of_change :
          (o : Option ProvenanceChange)
          → evaluate_survivorship sha256 attr_name v r (some existing) rule stand ≡ o
          → IsScoped names (evaluated_outcome sha256 ctx o)
      of_change none e = (tt, tt)
      of_change (some change) e = (
        (
          rw
              (attribute-evaluate_survivorship sha256 attr_name v r rule stand existing change
                (named existing refl) e)
              h,
          tt,
        ),
        tt,
      )

  IsScoped-cleared :
      (names : List Text) (attr_name : Text) (r : NormalisedRecord) (o : Option ProvenanceRow)
      (s : S)
      → Among attr_name names
      → IsScoped names (handle_cleared_attribute_on_update sha256 ctx attr_name r o s).0
  IsScoped-cleared names attr_name r none s h =
      unfold handle_cleared_attribute_on_update in (tt, tt)
  IsScoped-cleared names attr_name r (some existing) s h = elim (Bool-cases (wins r existing)) [
    | inl w ↦ unfold handle_cleared_attribute_on_update in rw w (of_row _ refl)
    | inr w ↦ unfold handle_cleared_attribute_on_update in rw w (tt, tt)
  ]
    where
      after : S
      after = ctx.delete_attribute r.cdm_entity_id attr_name r.connector_id r.source_record_id s

      sources : List ErIndexEntry
      sources =
          keep (λ source. not (is_record_source r source))
            (ctx.get_all_for_entity after r.cdm_entity_id)

      of_row :
          (row : Option ProvenanceRow)
          → re_elect_winner sha256
              (read_source sha256 ctx after attr_name)
              r.cdm_entity_id
              attr_name
              sources
              (rule_for sha256 ctx r attr_name)
            ≡ row
          → IsScoped names (cleared_outcome sha256 ctx r attr_name existing row)
      of_row none e = (tt, (h, tt))
      of_row (some row) e = (
        (
          rw
              (attribute-re_elect_winner sha256 (read_source sha256 ctx after attr_name)
                r.cdm_entity_id attr_name (rule_for sha256 ctx r attr_name) sources row e)
              h,
          tt,
        ),
        tt,
      )

  IsScoped-synthesise_attribute :
      (names : List Text) (r : NormalisedRecord) (existing : Dict ProvenanceRow) (attr_name : Text)
      (s : S)
      → IsNamed existing
      → Among attr_name names
      → IsScoped names (synthesise_attribute sha256 ctx r existing attr_name s).0
  unfolding synthesise_attribute
  IsScoped-synthesise_attribute names r existing attr_name s named h =
      of_value (incoming_value r attr_name)
    where
      of_value :
          (v : Option Scalar) → IsScoped names (value_outcome sha256 ctx r existing attr_name v s).0
      of_value none =
          unfold value_outcome in
          IsScoped-cleared names attr_name r (dict_get attr_name existing) s h
      of_value (some v) =
          unfold value_outcome in
          IsScoped-evaluated names attr_name v r (dict_get attr_name existing)
            (rule_for sha256 ctx r attr_name) (standing ctx s) (named attr_name) h

  IsScoped-synthesise_attributes :
      (names : List Text) (r : NormalisedRecord) (existing : Dict ProvenanceRow) (todo : List Text)
      (s : S)
      → IsNamed existing
      → All (λ a. Among a names) todo
      → IsScoped names (synthesise_attributes sha256 ctx r existing todo s).0
  unfolding synthesise_attributes
  IsScoped-synthesise_attributes names r existing [] s named h = (tt, tt)
  IsScoped-synthesise_attributes names r existing (a ∷ todo) s named h =
      let (c1, d1) = IsScoped-synthesise_attribute names r existing a s named h.0 in
      let (c2, d2) =
        IsScoped-synthesise_attributes names r existing todo
          (synthesise_attribute sha256 ctx r existing a s).1 named h.1 in
      (All-append _ _ _ c1 c2, All-append _ _ _ d1 d2)

  rows_within :
      (names : List Text) (changes : List ProvenanceChange)
      → ChangesWithin names changes
      → All (λ row. Among row.attribute_name names) (changed_rows sha256 ctx changes)
  unfolding keep
  rows_within names [] h = tt
  rows_within names (c ∷ changes) h = elim (Bool-cases c.changed) [
    | inl e ↦ rw (e, keep) (h.0, rows_within names changes h.1)
    | inr e ↦ rw (e, keep) (rows_within names changes h.1)
  ]

  -- A result that writes and deletes rows of the named attributes alone.
  abbrev pub WritesWithin : List Text → SynthesisResult → Type 0
  WritesWithin names result =
      All (λ row. Among row.attribute_name names) result.rows_to_upsert
      × All (λ d. Among d.1 names) result.rows_to_delete

  module _ (laws : IsProvenanceStore ctx) where
    -- A result and a store after it, by the named attributes.
    abbrev pub IsConfined : List Text → S → SynthesisResult × S → Type 0
    IsConfined names s (result, s') =
        WritesWithin names result × SameOutside sha256 ctx laws names s s'

    IsConfined-synthesise_scope :
        (r : NormalisedRecord) (is_new : Bool) (names : List Text) (s : S)
        → IsConfined names s (synthesise_scope sha256 ctx r is_new names s)
    unfolding synthesise_scope
    IsConfined-synthesise_scope r is_new names s =
        let existing = ctx.get_all s r.cdm_entity_id in
        let (c, d) =
          IsScoped-synthesise_attributes names r existing names s
            (λ a row e. laws.stored_name r.cdm_entity_id a row s e) (All-Among names) in
        let first = synthesise_attributes sha256 ctx r existing names s in
        let written = write_changes sha256 ctx first.0.changes first.1 in
        (
          (rows_within names first.0.changes c, d),
          SameOutside-trans sha256 ctx laws names s first.1 _
              (SameOutside-attributes sha256 ctx laws names r existing names s (All-Among names))
              (SameOutside-trans sha256 ctx laws names first.1 written.1 _
                (SameOutside-write_changes sha256 ctx laws names first.0.changes first.1 c)
                (SameOutside-store_hash sha256 ctx laws names r.cdm_entity_id _ _ written.1)),
        )

    IsConfined-synthesise_resolved :
        (r : NormalisedRecord) (is_new : Bool) (names : List Text) (s : S)
        → IsConfined names s (synthesise_resolved sha256 ctx r is_new (some names) s)
    unfolding synthesise_resolved
    IsConfined-synthesise_resolved r is_new [] s = ((tt, tt), SameOutside-refl sha256 ctx laws [] s)
    IsConfined-synthesise_resolved r is_new (a ∷ names) s =
        IsConfined-synthesise_scope r is_new (a ∷ names) s

    -- An UPDATE whose changed attributes are known reports rows to write and to delete for these
    -- attributes alone, and leaves the stored provenance of every entity as it is at any other,
    -- with stores that keep a row under its own attribute and touch no other when they write or
    -- delete.
    pub synthesise_record_scope :
        (r : NormalisedRecord) (resolution : ResolutionResult) (names : List Text) (s : S)
        → parse_changed_canonical_attributes r.source_op r.changed_canonical_attributes_json
          ≡ some names
        → WritesWithin names (synthesise_record sha256 ctx r resolution s).0
          × ((e a : Text)
              → ¬ Among a names
              → dict_get a (ctx.get_all (synthesise_record sha256 ctx r resolution s).1 e)
                ≡ dict_get a (ctx.get_all s e))
    unfolding synthesise_record
    synthesise_record_scope r resolution names s scope =
        elim (Bool-cases resolution.is_provisional) [
          | inl p ↦ rw p ((tt, tt), SameOutside-refl sha256 ctx laws names s)
          | inr p ↦
              rw (p, scope)
                (IsConfined-synthesise_resolved
                  (record r {
                    cdm_entity_id = resolution.cdm_entity_id;
                    er_confidence = resolution.confidence;
                  })
                  resolution.is_new_entity names s)
        ]
