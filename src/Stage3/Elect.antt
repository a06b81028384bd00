-- ===== src/Stage3/Elect.antt =====
-- `_re_elect_winner`: the survivorship of one attribute over all remaining sources.
pub mod Order
pub mod Elected
use nexus_spark_lib.Base.{
  Text, ℕ, zero, suc, ◌+◌, Bool, true, false, Option, none, some, List, [], ◌∷◌, if◌then◌else◌, ltb,
  text_eq, text_ltb, sort_by, length,
}
use nexus_spark_lib.Models.Survivorship.{
  SurvivorshipRuleType, most_recent, most_confident, source_priority, most_complete, first_observed,
  manual, longest_value, exact_match, SurvivorshipRule, ProvenanceRow,
}
use nexus_spark_lib.Hashing.{Digest}
use nexus_spark_lib.Stage3.Context.{Scalar, str, ErIndexEntry, SynthesisContext}

-- priority.index(connector_id), or len(priority) where it raises ValueError.
unfoldable pub priority_rank : Text → List Text → ℕ
priority_rank connector_id [] = 0
priority_rank connector_id (p ∷ priority) =
    if text_eq p connector_id then 0 else suc (priority_rank connector_id priority)

abbrev pub Candidate : Type 0
Candidate = ErIndexEntry × Scalar

-- The sources that have the attribute, with its value.
unfoldable pub candidates : (ErIndexEntry → Option Scalar) → List ErIndexEntry → List Candidate
candidates read [] = []
candidates read (source ∷ sources) =
    let rest = candidates read sources in
    elim (read source) [ none ↦ rest | some value ↦ (source, value) ∷ rest ]

-- The order of the sort key of each kind of rule; a reversed sort keeps the order of equal keys.
unfoldable pub source_before : SurvivorshipRuleType → List Text → ErIndexEntry → ErIndexEntry → Bool
source_before source_priority priority a b =
    ltb (priority_rank a.connector_id priority) (priority_rank b.connector_id priority)
source_before most_recent priority a b = text_ltb b.source_ts a.source_ts
source_before most_complete priority a b = ltb b.completeness_score a.completeness_score
source_before most_confident priority a b = ltb b.confidence a.confidence
source_before first_observed priority a b = text_ltb a.source_ts b.source_ts
source_before other priority a b = false

abbrev pub before : SurvivorshipRuleType → List Text → Candidate → Candidate → Bool
before kind priority a b = source_before kind priority a.0 b.0

-- No candidate, and a MANUAL rule, elect none; the kinds without a sort take the first candidate.
abbrev pub first_candidate : SurvivorshipRuleType → List Candidate → Option Candidate
first_candidate manual cs = none
first_candidate kind [] = none
first_candidate kind (winner ∷ rest) = some winner

unfoldable pub chosen : SurvivorshipRuleType → List Text → List Candidate → Option Candidate
chosen kind priority cs = first_candidate kind (sort_by (before kind priority) cs)

unfoldable pub winner_row :
    Digest → Text → Text → SurvivorshipRuleType → Option Candidate → Option ProvenanceRow
winner_row sha256 cdm_entity_id attr_name kind none = none
winner_row sha256 cdm_entity_id attr_name kind (some (source, value)) = some record {
  cdm_entity_id = cdm_entity_id;
  attribute_name = attr_name;
  winning_connector_id = source.connector_id;
  winning_source_table = source.source_table;
  winning_record_id = source.source_record_id;
  observed_value_hash = sha256 (str value);
  observed_at = source.source_ts;
  rule_applied = kind;
}

unfoldable pub re_elect_winner :
    Digest
    → (ErIndexEntry → Option Scalar)
    → Text
    → Text
    → List ErIndexEntry
    → SurvivorshipRule
    → Option ProvenanceRow
unfolding winner_row chosen candidates
re_elect_winner sha256 read cdm_entity_id attr_name remaining_sources rule =
    winner_row sha256 cdm_entity_id attr_name rule.rule_type
      (chosen rule.rule_type rule.priority_sources (candidates read remaining_sources))
