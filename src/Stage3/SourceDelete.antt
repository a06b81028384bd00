-- ===== src/Stage3/SourceDelete.antt =====
-- `handle_source_delete`: a source is removed, and its attributes are elected anew.
pub mod Decided
use nexus_spark_lib.Base.{
  Text, ℕ, Bool, true, false, Option, none, some, List, [], ◌∷◌, ◌++◌, Dict, dict_get, or_default,
}
use nexus_spark_lib.Models.Survivorship.{SurvivorshipRule, default_rule, ProvenanceRow}
use nexus_spark_lib.Hashing.{Digest}
use nexus_spark_lib.Stage3.Context.{
  Scalar, ErIndexEntry, DeleteAction, no_op, tombstoned_action, re_elected_action, DeleteResult,
  SynthesisContext,
}
use nexus_spark_lib.Stage3.Elect.{re_elect_winner}
use nexus_spark_lib.Stage3.Synthesise.{compute_provenance_hash}

-- The source that is deleted.
pub record Source : Type 0 where
  pub tenant_id : Text
  pub cdm_entity_type : Text
  pub connector_id : Text
  pub source_table : Text
  pub source_record_id : Text

module _ {S : Type 0} (sha256 : Digest) (ctx : SynthesisContext S) (d : Source) where
  abbrev pub rule_of : Text → SurvivorshipRule
  rule_of attr_name =
      or_default (dict_get attr_name (ctx.rules d.tenant_id d.cdm_entity_type))
        (default_rule d.tenant_id d.cdm_entity_type attr_name)

  abbrev pub elected : Text → Text → List ErIndexEntry → S → Option ProvenanceRow
  elected cdm_entity_id attr_name remaining s =
      re_elect_winner sha256
        (λ source.
          ctx.read_attribute s source.connector_id source.source_table source.source_record_id
            attr_name)
        cdm_entity_id attr_name remaining (rule_of attr_name)

  abbrev pub removed_from : Text → Text → S → S
  removed_from cdm_entity_id attr_name s =
      ctx.delete_attribute cdm_entity_id attr_name d.connector_id d.source_record_id s

  -- The new winner is written; the attribute joins the first or the second list.
  abbrev pub record_winner :
      Text → Option ProvenanceRow → (List Text × List Text) × S → (List Text × List Text) × S
  record_winner attr_name none ((re_elected, removed), s) =
      ((re_elected, removed ++ attr_name ∷ []), s)
  record_winner attr_name (some row) ((re_elected, removed), s) =
      ((re_elected ++ attr_name ∷ [], removed), (ctx.upsert_returning_changed row s).1)

  unfoldable pub re_elect_attributes :
      Text
      → List ErIndexEntry
      → List Text
      → (List Text × List Text) × S
      → (List Text × List Text) × S
  re_elect_attributes cdm_entity_id remaining [] (lists, s) = (lists, s)
  re_elect_attributes cdm_entity_id remaining (attr_name ∷ names) (lists, s) =
      let s' = removed_from cdm_entity_id attr_name s in
      re_elect_attributes cdm_entity_id remaining names
        (record_winner attr_name (elected cdm_entity_id attr_name remaining s') (lists, s'))

  unfoldable pub delete_survived : Text → List Text → List ErIndexEntry → S → DeleteResult × S
  unfolding re_elect_attributes
  delete_survived cdm_entity_id winning [] s = (
    record {
      affected_cdm_entity_id = some cdm_entity_id;
      action = tombstoned_action;
      re_elected_attributes = [];
      removed_attributes = [];
    },
    ctx.emit_remove cdm_entity_id d.tenant_id
        (ctx.delete_all cdm_entity_id (ctx.tombstone cdm_entity_id s)),
  )
  delete_survived cdm_entity_id winning (source ∷ remaining) s =
      let ((re_elected, removed), s1) =
        re_elect_attributes cdm_entity_id (source ∷ remaining) winning (([], []), s) in
      let new_hash = compute_provenance_hash sha256 (ctx.get_all s1 cdm_entity_id) in
      (
        record {
          affected_cdm_entity_id = some cdm_entity_id;
          action = re_elected_action;
          re_elected_attributes = re_elected;
          removed_attributes = removed;
        },
        ctx.emit_upsert cdm_entity_id d.tenant_id (ctx.update_hash cdm_entity_id new_hash s1),
      )

  unfoldable pub delete_entry : Option ErIndexEntry → S → DeleteResult × S
  unfolding delete_survived
  delete_entry none s = (
    record {
      affected_cdm_entity_id = none;
      action = no_op;
      re_elected_attributes = [];
      removed_attributes = [];
    },
    s,
  )
  delete_entry (some entry) s =
      let cdm_entity_id = entry.cdm_entity_id in
      let winning = ctx.get_attributes_won_by s cdm_entity_id d.connector_id d.source_record_id in
      let s' = ctx.delete_source d.connector_id d.source_table d.source_record_id s in
      delete_survived cdm_entity_id winning (ctx.get_all_for_entity s' cdm_entity_id) s'

  unfoldable pub handle_source_delete : S → DeleteResult × S
  unfolding delete_entry
  handle_source_delete s =
      delete_entry
        (ctx.lookup_source s d.tenant_id d.connector_id d.source_table d.source_record_id) s
