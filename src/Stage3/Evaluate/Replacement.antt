-- ===== src/Stage3/Evaluate/Replacement.antt =====
-- About `_evaluate_survivorship` of transform/stage3_synthesise.py.
use nexus_spark_lib.Base.{
  Text, ◌≡◌, ◌⊎◌, true, false, Option, none, some, arith, text_eq, text_eq_iff, text_eq_refl,
  text_ltb, text_ltb_trans,
}
use nexus_spark_lib.Models.Survivorship.{most_recent, SurvivorshipRule, ProvenanceRow}
use nexus_spark_lib.Hashing.{Digest}
use nexus_spark_lib.Stage3.Context.{Scalar, str, NormalisedRecord, ProvenanceChange}
use nexus_spark_lib.Stage3.Evaluate.{
  Standing, apply_survivorship_rule, make_provenance_row, evaluate_survivorship,
}

module _ (sha256 : Digest) (attr_name : Text) (value : Scalar) (incoming : NormalisedRecord)
    (rule : SurvivorshipRule) (stand : ProvenanceRow → Standing) where
  abbrev evaluated : Option ProvenanceRow → Option ProvenanceChange
  evaluated existing = evaluate_survivorship sha256 attr_name value incoming existing rule stand

  -- The row of a change is one of the attribute, if the winner's is.
  pub attribute-evaluate_survivorship :
      (existing : ProvenanceRow) (change : ProvenanceChange)
      → existing.attribute_name ≡ attr_name
      → evaluated (some existing) ≡ some change
      → change.row.attribute_name ≡ attr_name
  unfolding evaluate_survivorship make_provenance_row
  attribute-evaluate_survivorship existing change h e = ground arith

  -- After the row of a record has won, the same record again changes nothing.
  pub evaluate_survivorship_replay :
      evaluated (some (make_provenance_row incoming attr_name (sha256 (str value)) rule.rule_type))
        ≡ none
      ⊎ (evaluated
            (some (make_provenance_row incoming attr_name (sha256 (str value)) rule.rule_type))
          ≡ some record {
            row = make_provenance_row incoming attr_name (sha256 (str value)) rule.rule_type;
            changed = false;
          })
  unfolding evaluate_survivorship
  evaluate_survivorship_replay = ground (
    arith,
    text_eq_refl incoming.connector_id,
    text_eq_refl incoming.source_record_id,
    text_eq_refl (sha256 (str value)),
  )

-- Under MOST_RECENT a winner whose source sends the same value again, later, keeps the time of its
-- first observation; so a record of another source from between the two times replaces it, although
-- the first source has sent a later one.
pub stale_winner_loses :
    (sha256 : Digest) (attr_name : Text) (value other_value : Scalar) (existing : ProvenanceRow)
    (again other : NormalisedRecord) (rule : SurvivorshipRule) (stand : ProvenanceRow → Standing)
    → rule.rule_type ≡ most_recent
    → existing.observed_value_hash ≡ sha256 (str value)
    → existing.winning_connector_id ≡ again.connector_id
    → existing.winning_record_id ≡ again.source_record_id
    → text_eq existing.winning_connector_id other.connector_id ≡ false
    → text_ltb existing.observed_at other.source_ts ≡ true
    → text_ltb other.source_ts again.source_ts ≡ true
    → (evaluate_survivorship sha256 attr_name value again (some existing) rule stand
        ≡ some record { row = existing; changed = false })
      × (evaluate_survivorship sha256 attr_name other_value other (some existing) rule stand
          ≡ some record {
            row = make_provenance_row other attr_name (sha256 (str other_value)) most_recent;
            changed = true;
          })
unfolding evaluate_survivorship apply_survivorship_rule
stale_winner_loses sha256 attr_name value other_value existing again other rule stand k h c r ne p
      q =
    ground (
      arith,
      text_ltb_trans existing.observed_at other.source_ts again.source_ts p q,
      text_eq_iff existing.observed_value_hash (sha256 (str value)),
      text_eq_iff existing.winning_connector_id again.connector_id,
      text_eq_iff existing.winning_record_id again.source_record_id,
    )
