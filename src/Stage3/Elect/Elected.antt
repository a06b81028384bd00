-- ===== src/Stage3/Elect/Elected.antt =====
-- About the row that `_re_elect_winner` of transform/stage3_synthesise.py returns.
use nexus_spark_lib.Base.{
  text_ltb_negtrans, Text, ◌≡◌, refl, false, Option, none, some, List, [], ◌∷◌, arith,
  text_ltb_irrefl, sort_by, sort_by-IsSorted, IsSorted, All, Among, All-Among, All-sort_by,
  All-of_sort_by, All-of_IsFirst,
}
use nexus_spark_lib.Models.Survivorship.{
  SurvivorshipRuleType, most_recent, first_observed, manual, SurvivorshipRule, ProvenanceRow,
}
use nexus_spark_lib.Hashing.{Digest}
use nexus_spark_lib.Stage3.Context.{Scalar, str, ErIndexEntry}
use nexus_spark_lib.Stage3.Elect.{
  Candidate, candidates, source_before, before, first_candidate, winner_row, re_elect_winner,
}
use nexus_spark_lib.Stage3.Elect.Order.{All-candidates, source_before_asym}

module _ (sha256 : Digest) (read : ErIndexEntry → Option Scalar) (cdm_entity_id attr_name : Text)
    (rule : SurvivorshipRule) where
  -- An elected row is that of a remaining source with the attribute, and no other source with the
  -- attribute comes before it by the rule.
  pub record IsElected (sources : List ErIndexEntry) (row : ProvenanceRow) : Type 0 where
    pub source : ErIndexEntry
    pub value : Scalar
    pub remaining : Among source sources
    pub has_value : read source ≡ some value
    pub connector : row.winning_connector_id ≡ source.connector_id
    pub record_id : row.winning_record_id ≡ source.source_record_id
    pub value_hash : row.observed_value_hash ≡ sha256 (str value)
    pub observed : row.observed_at ≡ source.source_ts
    pub unbeaten :
        All
          (λ c. source_before rule.rule_type rule.priority_sources c.0 source ≡ false)
          (candidates read sources)

  source_before_negtrans :
      (a b c : ErIndexEntry)
      → source_before rule.rule_type rule.priority_sources a b ≡ false
      → source_before rule.rule_type rule.priority_sources b c ≡ false
      → source_before rule.rule_type rule.priority_sources a c ≡ false
  source_before_negtrans a b c h g = negtrans_at rule.rule_type h g
    where
      negtrans_at :
          (k : SurvivorshipRuleType)
          → source_before k rule.priority_sources a b ≡ false
          → source_before k rule.priority_sources b c ≡ false
          → source_before k rule.priority_sources a c ≡ false
      negtrans_at most_recent h g =
          unfold source_before in text_ltb_negtrans c.source_ts b.source_ts a.source_ts g h
      negtrans_at first_observed h g =
          unfold source_before in text_ltb_negtrans a.source_ts b.source_ts c.source_ts h g
      negtrans_at k h g = unfold source_before in ground arith

  source_before_irrefl :
      (a : ErIndexEntry) → source_before rule.rule_type rule.priority_sources a a ≡ false
  source_before_irrefl a = irrefl_at rule.rule_type
    where
      irrefl_at : (k : SurvivorshipRuleType) → source_before k rule.priority_sources a a ≡ false
      irrefl_at most_recent = unfold source_before in text_ltb_irrefl a.source_ts
      irrefl_at first_observed = unfold source_before in text_ltb_irrefl a.source_ts
      irrefl_at k = unfold source_before in ground arith

  abbrev sorted : List ErIndexEntry → List Candidate
  sorted sources = sort_by (before rule.rule_type rule.priority_sources) (candidates read sources)

  -- The first of the sorted candidates is a candidate that no candidate comes before.
  first_unbeaten :
      (sources : List ErIndexEntry) (c : Candidate) (rest : List Candidate)
      → sorted sources ≡ c ∷ rest
      → (Among c.0 sources × (read c.0 ≡ some c.1))
        × All
            (λ d. source_before rule.rule_type rule.priority_sources d.0 c.0 ≡ false)
            (candidates read sources)
  first_unbeaten sources c rest e = (among.0, unbeaten)
    where
      among : All (λ d. Among d.0 sources × (read d.0 ≡ some d.1)) (c ∷ rest)
      among = rw e at (
          All-sort_by (before rule.rule_type rule.priority_sources)
            (λ d. Among d.0 sources × (read d.0 ≡ some d.1)) (candidates read sources)
            (All-candidates read (λ s. Among s sources) sources (All-Among sources)))

      is_sorted : IsSorted (before rule.rule_type rule.priority_sources) (c ∷ rest)
      is_sorted = rw e at (
          sort_by-IsSorted (before rule.rule_type rule.priority_sources)
            (λ a b. source_before_asym rule.rule_type rule.priority_sources a.0 b.0)
            (λ a b d. source_before_negtrans a.0 b.0 d.0) (candidates read sources))

      unbeaten :
          All
            (λ d. source_before rule.rule_type rule.priority_sources d.0 c.0 ≡ false)
            (candidates read sources)
      unbeaten =
          All-of_sort_by (before rule.rule_type rule.priority_sources)
            (λ d. source_before rule.rule_type rule.priority_sources d.0 c.0 ≡ false)
            (candidates read sources)
            (rw e (
              source_before_irrefl c.0,
              All-of_IsFirst (before rule.rule_type rule.priority_sources) c rest is_sorted.0,
            ))

  row_of_first :
      (kind : SurvivorshipRuleType) (cs : List Candidate) {row : ProvenanceRow}
      → winner_row sha256 cdm_entity_id attr_name kind (first_candidate kind cs) ≡ some row
      → (c : Candidate) × (rest : List Candidate) × (cs ≡ c ∷ rest)
        × (winner_row sha256 cdm_entity_id attr_name kind (some c) ≡ some row)
  row_of_first manual cs e = unfold winner_row in cc
  row_of_first kind [] e = unfold winner_row in cc
  row_of_first kind (c ∷ rest) e = (c, rest, refl, e)

  -- An elected row is that of a remaining source which has the attribute, with the hash of its
  -- value and its time, and no source with the attribute comes before that source by the order of
  -- the rule.
  pub re_elect_winner-IsElected :
      (sources : List ErIndexEntry) (row : ProvenanceRow)
      → re_elect_winner sha256 read cdm_entity_id attr_name sources rule ≡ some row
      → IsElected sources row
  unfolding re_elect_winner
  re_elect_winner-IsElected sources row e =
      let (c, rest, at_first, wins) = row_of_first rule.rule_type (sorted sources) e in
      let ((among, has), unbeaten) = first_unbeaten sources c rest at_first in
      record {
        source = c.0;
        value = c.1;
        remaining = among;
        has_value = has;
        connector = ground arith;
        record_id = ground arith;
        value_hash = ground arith;
        observed = ground arith;
        unbeaten = unbeaten;
      }

  attribute_of_row :
      (kind : SurvivorshipRuleType) (o : Option Candidate) (row : ProvenanceRow)
      → winner_row sha256 cdm_entity_id attr_name kind o ≡ some row
      → row.attribute_name ≡ attr_name
  unfolding winner_row
  attribute_of_row kind none row e = cc
  attribute_of_row kind (some c) row e = ground arith

  pub attribute-re_elect_winner :
      (sources : List ErIndexEntry) (row : ProvenanceRow)
      → re_elect_winner sha256 read cdm_entity_id attr_name sources rule ≡ some row
      → row.attribute_name ≡ attr_name
  unfolding re_elect_winner
  attribute-re_elect_winner sources row e =
      attribute_of_row rule.rule_type (first_candidate rule.rule_type (sorted sources)) row e
