-- ===== src/Models/Materialization.antt =====
-- nexus_spark_lib/models/materialization.py: the policy that gives a record its tier. An instant is
-- a number of microseconds, a priority a natural number; the tests at the leaves of predicates, on
-- the values of the record, are a parameter.
pub mod Choice
use nexus_spark_lib.Base.{
  Text, ℕ, Bool, true, false, ◌||◌, ◌&&◌, Option, none, some, List, [], ◌∷◌, ◌++◌, codes, keep,
  if◌then◌else◌, ltb, leb, ◌==◌, text_eq, or_default, sort_by,
}
use nexus_spark_lib.Models.Predicate.{Truth, is_true, eval_predicate}

pub data MaterializationLevel : Type 0 where
  hot warm cold : MaterializationLevel

pub data RuleType : Type 0 where
  manual boost learned decay base other : RuleType

-- _RULE_TYPE_RANK.get(rule_type, 0)
unfoldable pub rule_type_rank : RuleType → ℕ
rule_type_rank manual = 5
rule_type_rank boost = 4
rule_type_rank learned = 3
rule_type_rank decay = 2
rule_type_rank base = 1
rule_type_rank other = 0

pub record PolicyRule : Type 0 where
  pub rule_id : Text
  pub tenant_id : Text
  pub scope : Text
  pub predicate : Text
  pub target_level : MaterializationLevel
  pub priority : ℕ
  pub rule_type : RuleType
  pub valid_from : Option ℕ
  pub valid_until : Option ℕ

-- rules_by_scope; a missing key has the empty list.
pub record MaterializationPolicy : Type 0 where
  pub rules_by_scope : Text → Text → List PolicyRule

pub record MaterializationDecision : Type 0 where
  pub level : MaterializationLevel
  pub applied_rule_id : Option Text
  pub evaluated_at : ℕ
  pub predicate_debug : Text

pub record MaterializationAssignment : Type 0 where
  pub cdm_entity_type : Text
  pub level : MaterializationLevel
  pub assigned_by : Text

-- A missing key of `assignments` is `none`.
pub record MaterializationRuntimeConfig : Type 0 where
  pub assignments : Text → Text → Option MaterializationAssignment
  pub policy : Option MaterializationPolicy

unfoldable pub get_rules : MaterializationPolicy → Text → Text → List PolicyRule
get_rules policy tenant_id cdm_entity_type =
    policy.rules_by_scope tenant_id cdm_entity_type
    ++ (policy.rules_by_scope tenant_id (codes "*")
        ++ (policy.rules_by_scope (codes "*") cdm_entity_type
            ++ policy.rules_by_scope (codes "*") (codes "*")))

abbrev begun : ℕ → Option ℕ → Bool
begun now none = true
begun now (some valid_from) = leb valid_from now

abbrev pub unexpired : ℕ → Option ℕ → Bool
unexpired now none = true
unexpired now (some valid_until) = ltb now valid_until

unfoldable pub is_active : ℕ → PolicyRule → Bool
is_active now rule = begun now rule.valid_from && unexpired now rule.valid_until

-- datetime(9999, 12, 31)
abbrev pub max_dt : ℕ
max_dt = 315537811200000000

-- The order of the sort key (-priority, -rank, valid_until or max_dt).
unfoldable pub rule_before : PolicyRule → PolicyRule → Bool
unfolding rule_type_rank
rule_before a b =
    ltb b.priority a.priority
    || (a.priority == b.priority
        && (ltb (rule_type_rank b.rule_type) (rule_type_rank a.rule_type)
            || (rule_type_rank a.rule_type == rule_type_rank b.rule_type
                && ltb (or_default a.valid_until max_dt) (or_default b.valid_until max_dt))))

abbrev pub default_decision : ℕ → MaterializationDecision
default_decision now = record {
  level = warm;
  applied_rule_id = none;
  evaluated_at = now;
  predicate_debug = codes "default:warm";
}

abbrev pub decision_of : ℕ → PolicyRule → MaterializationDecision
decision_of now winner = record {
  level = winner.target_level;
  applied_rule_id = some winner.rule_id;
  evaluated_at = now;
  predicate_debug = winner.predicate;
}

abbrev pub first_decision : ℕ → List PolicyRule → MaterializationDecision
first_decision now [] = default_decision now
first_decision now (winner ∷ rest) = decision_of now winner

module _ (test : Text → Truth) (now : ℕ) where
  unfoldable pub matching : List PolicyRule → List PolicyRule
  unfolding is_active eval_predicate
  matching rules =
      keep (λ rule. is_true (eval_predicate test rule.predicate)) (keep (is_active now) rules)

  unfoldable pub evaluate : MaterializationPolicy → Text → Text → MaterializationDecision
  unfolding matching get_rules rule_before
  evaluate policy tenant_id cdm_entity_type =
      first_decision now
        (sort_by rule_before (matching (get_rules policy tenant_id cdm_entity_type)))

  -- `a or b` on the two assignments.
  unfoldable pub get_assignment :
      MaterializationRuntimeConfig → Text → Text → Option MaterializationAssignment
  get_assignment config tenant_id cdm_entity_type =
      elim (config.assignments tenant_id cdm_entity_type) [
        | some assignment ↦ some assignment
        | none ↦ config.assignments tenant_id (codes "*")
      ]

  abbrev pub policy_decision : Option MaterializationPolicy → Text → Text → MaterializationDecision
  policy_decision none tenant_id cdm_entity_type = default_decision now
  policy_decision (some policy) tenant_id cdm_entity_type =
      evaluate policy tenant_id cdm_entity_type

  abbrev pub assigned_decision :
      Option MaterializationAssignment
      → MaterializationRuntimeConfig
      → Text
      → Text
      → MaterializationDecision
  assigned_decision none config tenant_id cdm_entity_type =
      policy_decision config.policy tenant_id cdm_entity_type
  assigned_decision (some assignment) config tenant_id cdm_entity_type = record {
    level = assignment.level;
    applied_rule_id = some (
        codes "cdm_entity_materialization:"
        ++ (tenant_id ++ (codes ":" ++ assignment.cdm_entity_type)));
    evaluated_at = now;
    predicate_debug = codes "assignment:" ++ assignment.assigned_by;
  }

  unfoldable pub evaluate_runtime :
      MaterializationRuntimeConfig → Text → Text → MaterializationDecision
  unfolding get_assignment
  evaluate_runtime config tenant_id cdm_entity_type =
      assigned_decision (get_assignment config tenant_id cdm_entity_type) config tenant_id
        cdm_entity_type
