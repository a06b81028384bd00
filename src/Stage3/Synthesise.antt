-- ===== src/Stage3/Synthesise.antt =====
-- `_synthesise_record`: one normalised record against the provenance of its golden record.
pub mod Hash
pub mod Frame
pub mod Scope
pub mod Order
use nexus_spark_lib.Base.{
  unique, Text, ℕ, Bool, true, false, not, ◌&&◌, ◌||◌, Option, none, some, List, [], ◌∷◌, ◌++◌, map,
  codes, if◌then◌else◌, text_eq, text_ltb, upper, keep, any, sort_by, Dict, dict_get, dict_set,
  dict_pop, keys, or_default,
}
use nexus_spark_lib.Models.Survivorship.{
  SurvivorshipRule, default_rule, ProvenanceRow, SynthesisResult,
}
use nexus_spark_lib.Hashing.{Digest, provenance_hash_from_winning_records}
use nexus_spark_lib.Stage3.Context.{
  Scalar, Field, extract_field_value, JsonAttributes, malformed, array, other_json,
  NormalisedRecord, ResolutionResult, ErIndexEntry, ProvenanceChange, SynthesisContext,
}
use nexus_spark_lib.Stage3.Elect.{re_elect_winner}
use nexus_spark_lib.Stage3.Evaluate.{standing, evaluate_survivorship}

-- [str(a) for a in changed if a]
unfoldable pub present : List (Option Text) → List Text
present [] = []
present (none ∷ items) = present items
present (some a ∷ items) = a ∷ present items

-- The changed attributes of an UPDATE; `none` asks for full synthesis.
unfoldable pub parse_changed_canonical_attributes : Text → JsonAttributes → Option (List Text)
unfolding present
parse_changed_canonical_attributes source_op changed =
    if text_eq (upper source_op) (codes "UPDATE")
    then elim changed [
      | malformed ↦ some []
      | array items ↦ some (present items)
      | other_json ↦ some []
    ]
    else none

abbrev pub row_winner : Text × ProvenanceRow → Text × Text
row_winner (attr_name, row) = (attr_name, row.winning_record_id)

abbrev pub row_hash : Text × ProvenanceRow → Text × Text
row_hash (attr_name, row) = (attr_name, row.observed_value_hash)

unfoldable pub compute_provenance_hash : Digest → Dict ProvenanceRow → Text
compute_provenance_hash sha256 provenance =
    provenance_hash_from_winning_records sha256 (map row_winner provenance)
      (map row_hash provenance)

abbrev pub by_attribute : Text × ProvenanceRow → Text × ProvenanceRow → Bool
by_attribute a b = text_ltb a.0 b.0

abbrev pub pointer : Text × ProvenanceRow → Text × Text
pointer (attr_name, row) =
    (attr_name, row.winning_connector_id ++ (codes ":" ++ row.winning_record_id))

unfoldable pub attribute_provenance : Dict ProvenanceRow → Dict Text
attribute_provenance provenance = map pointer (sort_by by_attribute provenance)

unfoldable pub contributing_sources : Dict ProvenanceRow → List Text
unfolding unique
contributing_sources provenance =
    sort_by text_ltb (unique (map (λ item. item.1.winning_connector_id) provenance))

-- (entity_id, attr, source)
abbrev pub Deletion : Type 0
Deletion = Text × Text × Text

-- `_ClearedAttributeOutcome`; None is the outcome without changes.
pub record Outcome : Type 0 where
  pub changes : List ProvenanceChange
  pub rows_to_delete : List Deletion

abbrev pub unchanged : Outcome
unchanged = record { changes = []; rows_to_delete = [] }

abbrev pub is_record_source : NormalisedRecord → ErIndexEntry → Bool
is_record_source r source =
    text_eq source.connector_id r.connector_id
    && (text_eq source.source_table r.source_table
        && text_eq source.source_record_id r.source_record_id)

abbrev pub wins : NormalisedRecord → ProvenanceRow → Bool
wins r existing =
    text_eq existing.winning_connector_id r.connector_id
    && text_eq existing.winning_record_id r.source_record_id

abbrev pub value_of : Option Field → Option Scalar
value_of none = none
value_of (some field) = extract_field_value field

abbrev pub incoming_value : NormalisedRecord → Text → Option Scalar
incoming_value r attr_name = value_of (dict_get attr_name r.canonical_fields)

module _ {S : Type 0} (sha256 : Digest) (ctx : SynthesisContext S) where
  abbrev pub rule_for : NormalisedRecord → Text → SurvivorshipRule
  rule_for r attr_name =
      or_default (dict_get attr_name (ctx.rules r.tenant_id r.cdm_entity_type))
        (default_rule r.tenant_id r.cdm_entity_type attr_name)

  abbrev pub read_source : S → Text → ErIndexEntry → Option Scalar
  read_source s attr_name source =
      ctx.read_attribute s source.connector_id source.source_table source.source_record_id attr_name

  -- The election of a cleared attribute: a new row, or the deletion of the old one.
  abbrev pub cleared_outcome :
      NormalisedRecord → Text → ProvenanceRow → Option ProvenanceRow → Outcome
  cleared_outcome r attr_name existing none = record {
    changes = [];
    rows_to_delete = (r.cdm_entity_id, attr_name, existing.winning_connector_id) ∷ [];
  }
  cleared_outcome r attr_name existing (some row) = record {
    changes = record { row = row; changed = true } ∷ [];
    rows_to_delete = [];
  }

  unfoldable pub handle_cleared_attribute_on_update :
      Text → NormalisedRecord → Option ProvenanceRow → S → Outcome × S
  handle_cleared_attribute_on_update attr_name r none s = (unchanged, s)
  handle_cleared_attribute_on_update attr_name r (some existing) s =
      if wins r existing
      then (let s' =
            ctx.delete_attribute r.cdm_entity_id attr_name r.connector_id r.source_record_id s in
          (
            cleared_outcome r attr_name existing (
                re_elect_winner sha256 (read_source s' attr_name) r.cdm_entity_id attr_name
                  (keep (λ source. not (is_record_source r source))
                    (ctx.get_all_for_entity s' r.cdm_entity_id))
                  (rule_for r attr_name)),
            s',
          ))
      else (unchanged, s)

  abbrev pub evaluated_outcome : Option ProvenanceChange → Outcome
  evaluated_outcome none = unchanged
  evaluated_outcome (some change) = record { changes = change ∷ []; rows_to_delete = [] }

  -- The body of the loop over the attributes; the provenance is that from before the loop.
  unfoldable pub value_outcome :
      NormalisedRecord → Dict ProvenanceRow → Text → Option Scalar → S → Outcome × S
  unfolding handle_cleared_attribute_on_update
  value_outcome r existing attr_name none s =
      handle_cleared_attribute_on_update attr_name r (dict_get attr_name existing) s
  value_outcome r existing attr_name (some value) s = (
    evaluated_outcome (
        evaluate_survivorship sha256 attr_name value r (dict_get attr_name existing)
          (rule_for r attr_name) (standing ctx s)),
    s,
  )

  unfoldable pub synthesise_attribute :
      NormalisedRecord → Dict ProvenanceRow → Text → S → Outcome × S
  unfolding value_outcome
  synthesise_attribute r existing attr_name s =
      value_outcome r existing attr_name (incoming_value r attr_name) s

  unfoldable pub synthesise_attributes :
      NormalisedRecord → Dict ProvenanceRow → List Text → S → Outcome × S
  synthesise_attributes r existing [] s = (unchanged, s)
  synthesise_attributes r existing (attr_name ∷ names) s =
      let (first, s') = synthesise_attribute r existing attr_name s in
      let (rest, s'') = synthesise_attributes r existing names s' in
      (
        record {
          changes = first.changes ++ rest.changes;
          rows_to_delete = first.rows_to_delete ++ rest.rows_to_delete;
        },
        s'',
      )

  -- Every change is written; whether any write changed a row is the result.
  unfoldable pub write_changes : List ProvenanceChange → S → Bool × S
  write_changes [] s = (false, s)
  write_changes (change ∷ changes) s =
      let (written, s') = ctx.upsert_returning_changed change.row s in
      let (others, s'') = write_changes changes s' in (written || others, s'')

  unfoldable pub set_changed : List ProvenanceChange → Dict ProvenanceRow → Dict ProvenanceRow
  set_changed [] provenance = provenance
  set_changed (change ∷ changes) provenance = set_changed changes (
      if change.changed
      then dict_set change.row.attribute_name change.row provenance
      else provenance)

  unfoldable pub pop_deleted : List Deletion → Dict ProvenanceRow → Dict ProvenanceRow
  pop_deleted [] provenance = provenance
  pop_deleted ((entity, attr_name, source) ∷ deletions) provenance =
      pop_deleted deletions (dict_pop attr_name provenance)

  -- The hash of the updated provenance is computed and stored only if something changed.
  unfoldable pub store_hash : Text → Bool → Dict ProvenanceRow → S → (Text × Bool) × S
  store_hash cdm_entity_id recompute updated s =
      let previous = ctx.get_hash s cdm_entity_id in
      let new_hash = compute_provenance_hash sha256 updated in
      if recompute
      then (if text_eq new_hash previous
          then ((new_hash, false), s)
          else ((new_hash, true), ctx.update_hash cdm_entity_id new_hash s))
      else ((previous, false), s)

  abbrev pub is_changed : List Deletion → Bool → Bool
  is_changed [] written = written
  is_changed deletions written = true

  abbrev pub changed_rows : List ProvenanceChange → List ProvenanceRow
  changed_rows changes = map (λ c. c.row) (keep (λ c. c.changed) changes)

  unfoldable pub synthesise_scope : NormalisedRecord → Bool → List Text → S → SynthesisResult × S
  unfolding store_hash write_changes synthesise_attributes set_changed pop_deleted
      attribute_provenance contributing_sources
  synthesise_scope r is_new names s =
      let existing = ctx.get_all s r.cdm_entity_id in
      let (outcome, s1) = synthesise_attributes r existing names s in
      let (written, s2) = write_changes outcome.changes s1 in
      let updated = pop_deleted outcome.rows_to_delete (set_changed outcome.changes existing) in
      let (hash, s3) =
        store_hash r.cdm_entity_id (is_changed outcome.rows_to_delete written || is_new) updated
          s2 in
      (
        record {
          cdm_entity_id = r.cdm_entity_id;
          rows_to_upsert = changed_rows outcome.changes;
          rows_to_delete = outcome.rows_to_delete;
          provenance_hash = hash.0;
          hash_changed = hash.1;
          contributing_sources = contributing_sources updated;
          attribute_provenance = attribute_provenance updated;
        },
        s3,
      )

  -- An UPDATE that changed no attribute, and a provisional resolution.
  abbrev pub settled_result : Text → Text → Dict ProvenanceRow → SynthesisResult
  settled_result cdm_entity_id hash existing = record {
    cdm_entity_id = cdm_entity_id;
    rows_to_upsert = [];
    rows_to_delete = [];
    provenance_hash = hash;
    hash_changed = false;
    contributing_sources = contributing_sources existing;
    attribute_provenance = attribute_provenance existing;
  }

  unfoldable pub synthesise_resolved :
      NormalisedRecord → Bool → Option (List Text) → S → SynthesisResult × S
  synthesise_resolved r is_new none s = synthesise_scope r is_new (keys r.canonical_fields) s
  synthesise_resolved r is_new (some []) s = (
    settled_result r.cdm_entity_id (ctx.get_hash s r.cdm_entity_id) (ctx.get_all s r.cdm_entity_id),
    s,
  )
  synthesise_resolved r is_new (some (a ∷ names)) s = synthesise_scope r is_new (a ∷ names) s

  unfoldable pub synthesise_record : NormalisedRecord → ResolutionResult → S → SynthesisResult × S
  unfolding synthesise_resolved
  synthesise_record incoming resolution s =
      let r = record incoming {
        cdm_entity_id = resolution.cdm_entity_id;
        er_confidence = resolution.confidence;
      } in
      if resolution.is_provisional
      then (settled_result resolution.cdm_entity_id [] [], s)
      else synthesise_resolved r resolution.is_new_entity
          (parse_changed_canonical_attributes r.source_op r.changed_canonical_attributes_json) s
