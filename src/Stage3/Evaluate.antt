-- ===== src/Stage3/Evaluate.antt =====
-- `_apply_survivorship_rule` and `_evaluate_survivorship`: an incoming value against the winner.
pub mod Replacement
pub mod Ranks
pub mod Sequence
use nexus_spark_lib.Base.{
  Text, ℕ, Bool, true, false, not, ◌&&◌, Option, none, some, List, [], ◌∷◌, if◌then◌else◌, ltb,
  ◌==◌, text_eq, text_ltb, is_some, count_of,
}
use nexus_spark_lib.Models.Survivorship.{
  SurvivorshipRuleType, most_recent, most_confident, source_priority, most_complete, first_observed,
  manual, longest_value, exact_match, SurvivorshipRule, ProvenanceRow,
}
use nexus_spark_lib.Hashing.{Digest}
use nexus_spark_lib.Stage3.Context.{
  Scalar, Field, extract_field_value, str, NormalisedRecord, ProvenanceChange, SynthesisContext,
}
use nexus_spark_lib.Stage3.Elect.{priority_rank}

-- The count of the fields that are not None.
unfoldable pub completeness : NormalisedRecord → ℕ
unfolding extract_field_value
completeness incoming =
    count_of (λ item. is_some (extract_field_value item.1)) incoming.canonical_fields

-- What the stores say of the current winner: its completeness and its confidence.
pub record Standing : Type 0 where
  pub completeness_score : ℕ
  pub confidence : ℕ

unfoldable pub standing : {S : Type 0} → SynthesisContext S → S → ProvenanceRow → Standing
standing ctx s row = record {
  completeness_score = ctx.get_completeness s row.cdm_entity_id row.winning_connector_id;
  confidence = ctx.get_confidence s row.cdm_entity_id row.winning_connector_id;
}

unfoldable pub apply_survivorship_rule :
    SurvivorshipRuleType → List Text → NormalisedRecord → ProvenanceRow → Standing → Bool
apply_survivorship_rule source_priority priority incoming existing now =
    ltb (priority_rank incoming.connector_id priority)
      (priority_rank existing.winning_connector_id priority)
apply_survivorship_rule most_recent priority incoming existing now =
    text_ltb existing.observed_at incoming.source_ts
apply_survivorship_rule most_complete priority incoming existing now =
    if completeness incoming == now.completeness_score
    then text_ltb existing.observed_at incoming.source_ts
    else ltb now.completeness_score (completeness incoming)
apply_survivorship_rule most_confident priority incoming existing now =
    ltb now.confidence incoming.er_confidence
apply_survivorship_rule other priority incoming existing now = false

unfoldable pub make_provenance_row :
    NormalisedRecord → Text → Text → SurvivorshipRuleType → ProvenanceRow
make_provenance_row incoming attr_name value_hash kind = record {
  cdm_entity_id = incoming.cdm_entity_id;
  attribute_name = attr_name;
  winning_connector_id = incoming.connector_id;
  winning_source_table = incoming.source_table;
  winning_record_id = incoming.source_record_id;
  observed_value_hash = value_hash;
  observed_at = incoming.source_ts;
  rule_applied = kind;
}

-- The same value of the same source.
unfoldable pub same_observation : ProvenanceRow → Text → NormalisedRecord → Bool
same_observation existing incoming_hash incoming =
    text_eq existing.observed_value_hash incoming_hash
    && (text_eq existing.winning_connector_id incoming.connector_id
        && text_eq existing.winning_record_id incoming.source_record_id)

abbrev pub is_manual : SurvivorshipRuleType → Bool
is_manual manual = true
is_manual other = false

unfoldable pub evaluate_survivorship :
    Digest
    → Text
    → Scalar
    → NormalisedRecord
    → Option ProvenanceRow
    → SurvivorshipRule
    → (ProvenanceRow → Standing)
    → Option ProvenanceChange
unfolding make_provenance_row same_observation
evaluate_survivorship sha256 attr_name attr_value incoming none rule stand = some record {
  row = make_provenance_row incoming attr_name (sha256 (str attr_value)) rule.rule_type;
  changed = true;
}
evaluate_survivorship sha256 attr_name attr_value incoming (some existing) rule stand =
    if is_manual rule.rule_type
    then none
    else if not (
        apply_survivorship_rule rule.rule_type rule.priority_sources incoming existing
          (stand existing))
    then none
    else if same_observation existing (sha256 (str attr_value)) incoming
    then some record { row = existing; changed = false }
    else some record {
      row = make_provenance_row incoming attr_name (sha256 (str attr_value)) rule.rule_type;
      changed = true;
    }
