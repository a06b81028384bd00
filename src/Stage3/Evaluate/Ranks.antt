-- ===== src/Stage3/Evaluate/Ranks.antt =====
-- What the survivorship rules of transform/stage3_synthesise.py mean, as an order of records.
use nexus_spark_lib.Base.{
  Text, ◌<◌, ◌≡◌, ◌⊎◌, true, List, arith, text_ltb, text_ltb_trans, text_ltb_total,
}
use nexus_spark_lib.Models.Survivorship.{
  SurvivorshipRuleType, most_recent, most_confident, source_priority, most_complete, first_observed,
  manual, longest_value, exact_match,
}
use nexus_spark_lib.Stage3.Context.{Scalar, NormalisedRecord}
use nexus_spark_lib.Stage3.Elect.{priority_rank}
use nexus_spark_lib.Stage3.Evaluate.{completeness}

-- A record and its value of the attribute.
abbrev pub Sent : Type 0
Sent = NormalisedRecord × Scalar

-- What the rule means: the first record is to win over the second. The rules that the code does not
-- evaluate, and MANUAL, let none win.
abbrev pub Outranks : SurvivorshipRuleType → List Text → Sent → Sent → Type 0
Outranks source_priority priority (a, v) (b, w) =
    priority_rank a.connector_id priority < priority_rank b.connector_id priority
Outranks most_recent priority (a, v) (b, w) = text_ltb b.source_ts a.source_ts ≡ true
Outranks most_complete priority (a, v) (b, w) =
    (completeness b < completeness a)
    ⊎ ((completeness a ≡ completeness b) × (text_ltb b.source_ts a.source_ts ≡ true))
Outranks most_confident priority (a, v) (b, w) = b.er_confidence < a.er_confidence
Outranks other priority a b = ⊥

later_than : (s t u : Text) → text_ltb t s ≡ true → ¬ (text_ltb t u ≡ true) → text_ltb u s ≡ true
later_than s t u h k = ground (arith, text_ltb_trans u t s, text_ltb_total u t)

-- A record outranks whatever does not outrank one that it outranks.
pub Outranks-weak :
    (kind : SurvivorshipRuleType) (priority : List Text) (a b c : Sent)
    → Outranks kind priority a b
    → ¬ Outranks kind priority c b
    → Outranks kind priority a c
Outranks-weak source_priority priority (a, _) (b, _) (c, _) h k = omega arith
Outranks-weak most_recent priority (a, _) (b, _) (c, _) h k =
    later_than a.source_ts b.source_ts c.source_ts h k
Outranks-weak most_complete priority (a, _) (b, _) (c, _) h k =
    ground (arith, later_than a.source_ts b.source_ts c.source_ts)
Outranks-weak most_confident priority (a, _) (b, _) (c, _) h k = omega arith
Outranks-weak first_observed priority a b c h k = absurd h
Outranks-weak manual priority a b c h k = absurd h
Outranks-weak longest_value priority a b c h k = absurd h
Outranks-weak exact_match priority a b c h k = absurd h

pub Outranks-trans :
    (kind : SurvivorshipRuleType) (priority : List Text) (a b c : Sent)
    → Outranks kind priority a b
    → Outranks kind priority b c
    → Outranks kind priority a c
Outranks-trans source_priority priority (a, _) (b, _) (c, _) h k = omega arith
Outranks-trans most_recent priority (a, _) (b, _) (c, _) h k =
    text_ltb_trans c.source_ts b.source_ts a.source_ts k h
Outranks-trans most_complete priority (a, _) (b, _) (c, _) h k =
    ground (arith, text_ltb_trans c.source_ts b.source_ts a.source_ts)
Outranks-trans most_confident priority (a, _) (b, _) (c, _) h k = omega arith
Outranks-trans first_observed priority a b c h k = absurd h
Outranks-trans manual priority a b c h k = absurd h
Outranks-trans longest_value priority a b c h k = absurd h
Outranks-trans exact_match priority a b c h k = absurd h
