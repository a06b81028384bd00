-- ===== src/Models/Survivorship.antt =====
-- nexus_spark_lib/models/survivorship.py: rules, provenance rows and the result of Stage 3.
use nexus_spark_lib.Base.{
  Text, Bool, ◌&&◌, Option, none, List, [], ◌∷◌, if◌then◌else◌, text_eq, Dict,
}

pub data SurvivorshipRuleType : Type 0 where
  most_recent most_confident source_priority most_complete first_observed manual longest_value
        exact_match :
      SurvivorshipRuleType

pub record SurvivorshipRule : Type 0 where
  pub tenant_id : Text
  pub cdm_entity_type : Text
  pub attribute_name : Text
  pub rule_type : SurvivorshipRuleType
  pub priority_sources : List Text
  pub fallback_rule_type : Option SurvivorshipRuleType

-- The key (tenant_id, cdm_entity_type, attribute_name) of a rule set.
abbrev pub RuleKey : Type 0
RuleKey = Text × Text × Text

abbrev pub rule_key_eq : RuleKey → RuleKey → Bool
rule_key_eq (t, y, a) (t', y', a') = text_eq t t' && (text_eq y y' && text_eq a a')

abbrev pub SurvivorshipRuleSet : Type 0
SurvivorshipRuleSet = List (RuleKey × SurvivorshipRule)

abbrev pub default_rule : Text → Text → Text → SurvivorshipRule
default_rule tenant_id cdm_entity_type attribute_name = record {
  tenant_id = tenant_id;
  cdm_entity_type = cdm_entity_type;
  attribute_name = attribute_name;
  rule_type = most_recent;
  priority_sources = [];
  fallback_rule_type = none;
}

unfoldable pub get_rule : SurvivorshipRuleSet → Text → Text → Text → SurvivorshipRule
get_rule [] tenant_id cdm_entity_type attribute_name =
    default_rule tenant_id cdm_entity_type attribute_name
get_rule ((key, rule) ∷ rules) tenant_id cdm_entity_type attribute_name =
    if rule_key_eq key (tenant_id, cdm_entity_type, attribute_name)
    then rule
    else get_rule rules tenant_id cdm_entity_type attribute_name

pub record ProvenanceRow : Type 0 where
  pub cdm_entity_id : Text
  pub attribute_name : Text
  pub winning_connector_id : Text
  pub winning_source_table : Text
  pub winning_record_id : Text
  pub observed_value_hash : Text
  pub observed_at : Text
  pub rule_applied : SurvivorshipRuleType

pub record SynthesisResult : Type 0 where
  pub cdm_entity_id : Text
  pub rows_to_upsert : List ProvenanceRow
  pub rows_to_delete : List (Text × Text × Text)
  pub provenance_hash : Text
  pub hash_changed : Bool
  pub contributing_sources : List Text
  pub attribute_provenance : Dict Text
