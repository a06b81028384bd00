-- ===== src/Db/Settings.antt =====
-- nexus_spark_lib/db/survivorship_rules.py: the loaders of rules, policies and assignments. An
-- unknown level or type is a ValueError, which ends the load: `none`. The columns `source` and
-- `learned_metadata`, which no decision reads, are left out, and so is `updated_at`.
pub mod Policies
pub mod Errors
pub mod Rules
use nexus_spark_lib.Base.{
  Text, ℕ, Bool, true, false, ◌&&◌, ◌||◌, Option, none, some, List, [], ◌∷◌, ◌++◌, codes, keep,
  if◌then◌else◌, ltb, text_eq, text_ltb, or_text, or_default, sort_by,
}
use nexus_spark_lib.Models.Materialization.{
  MaterializationLevel, hot, warm, cold, RuleType, manual, boost, learned, decay, base, other,
  PolicyRule, MaterializationPolicy, MaterializationAssignment, MaterializationRuntimeConfig,
  unexpired,
}

-- materialization_policy
pub record PolicyRow : Type 0 where
  pub rule_id : Text
  pub tenant_id : Text
  pub scope : Text
  pub predicate : Text
  pub target_level : Text
  pub priority : ℕ
  pub rule_type : Text
  pub valid_from : Option ℕ
  pub valid_until : Option ℕ

-- MaterializationLevel(s)
abbrev pub level_of : Text → Option MaterializationLevel
level_of s =
    if text_eq s (codes "hot")
    then some hot
    else if text_eq s (codes "warm")
    then some warm
    else if text_eq s (codes "cold")
    then some cold
    else none

abbrev pub rule_type_of : Text → RuleType
rule_type_of s =
    if text_eq s (codes "manual")
    then manual
    else if text_eq s (codes "boost")
    then boost
    else if text_eq s (codes "learned")
    then learned
    else if text_eq s (codes "decay")
    then decay
    else if text_eq s (codes "base")
    then base
    else other

abbrev pub rule_at : PolicyRow → MaterializationLevel → PolicyRule
rule_at row level = record {
  rule_id = row.rule_id;
  tenant_id = row.tenant_id;
  scope = row.scope;
  predicate = or_text row.predicate (codes "TRUE");
  target_level = level;
  priority = row.priority;
  rule_type = rule_type_of row.rule_type;
  valid_from = row.valid_from;
  valid_until = row.valid_until;
}

abbrev pub with_level : PolicyRow → Option MaterializationLevel → Option PolicyRule
with_level row none = none
with_level row (some level) = some (rule_at row level)

unfoldable pub policy_rule : PolicyRow → Option PolicyRule
policy_rule row = with_level row (level_of row.target_level)

-- ORDER BY tenant_id, scope, priority DESC
unfoldable pub row_before : PolicyRow → PolicyRow → Bool
row_before a b =
    text_ltb a.tenant_id b.tenant_id
    || (text_eq a.tenant_id b.tenant_id
        && (text_ltb a.scope b.scope || (text_eq a.scope b.scope && ltb b.priority a.priority)))

-- The rows that have not expired, in the order of the query.
abbrev pub is_current : ℕ → PolicyRow → Bool
is_current now row = unexpired now row.valid_until

abbrev pub current_rows : ℕ → List PolicyRow → List PolicyRow
current_rows now rows = keep (is_current now) (sort_by row_before rows)

abbrev pub in_scope : Text → Text → PolicyRule → Bool
in_scope tenant_id scope rule = text_eq rule.tenant_id tenant_id && text_eq rule.scope scope

-- policy.rules_by_scope.setdefault(key, []).append(rule)
abbrev pub append_rule : PolicyRule → MaterializationPolicy → MaterializationPolicy
append_rule rule policy = record {
  rules_by_scope = λ tenant_id scope.
      let rules = policy.rules_by_scope tenant_id scope in
      if in_scope tenant_id scope rule then rules ++ rule ∷ [] else rules;
}

-- What follows a value that may raise an error.
infixl 5 ◌>>=◌
abbrev pub ◌>>=◌ : {A B : Type 0} → Option A → (A → Option B) → Option B
none >>= f = none
some a >>= f = f a

unfoldable pub append_rules : List PolicyRow → MaterializationPolicy → Option MaterializationPolicy
append_rules [] policy = some policy
append_rules (row ∷ rows) policy = do
  rule ← policy_rule row
  append_rules rows (append_rule rule policy)

abbrev pub empty_policy : MaterializationPolicy
empty_policy = record { rules_by_scope = λ tenant_id scope. [] }

unfoldable pub load_materialization_policy : ℕ → List PolicyRow → Option MaterializationPolicy
unfolding append_rules policy_rule keep sort_by row_before
load_materialization_policy now rows = append_rules (current_rows now rows) empty_policy

-- cdm_entity_materialization
pub record AssignmentRow : Type 0 where
  pub tenant_id : Text
  pub cdm_entity_type : Text
  pub materialization_level : Text
  pub assigned_by : Text

abbrev Assignments : Type 0
Assignments = Text → Text → Option MaterializationAssignment

abbrev assign : AssignmentRow → MaterializationLevel → Assignments → Assignments
assign row level assignments tenant_id cdm_entity_type =
    if text_eq row.tenant_id tenant_id && text_eq row.cdm_entity_type cdm_entity_type
    then some (record {
      cdm_entity_type = row.cdm_entity_type;
      level = level;
      assigned_by = or_text row.assigned_by (codes "default");
    })
    else assignments tenant_id cdm_entity_type

unfoldable pub assign_rows : List AssignmentRow → Assignments → Option Assignments
assign_rows [] assignments = some assignments
assign_rows (row ∷ rows) assignments = do
  level ← level_of row.materialization_level
  assign_rows rows (assign row level assignments)

-- A table is `none` where it is not defined.
abbrev optional_policy : ℕ → Option (List PolicyRow) → Option (Option MaterializationPolicy)
optional_policy now none = some none
optional_policy now (some rows) = do
  policy ← load_materialization_policy now rows
  some (some policy)

unfoldable pub load_materialization_runtime_config :
    ℕ → Option (List AssignmentRow) → Option (List PolicyRow) → Option MaterializationRuntimeConfig
unfolding assign_rows load_materialization_policy
load_materialization_runtime_config now assignment_rows policy_rows = do
  assignments ← assign_rows (or_default assignment_rows []) (λ tenant_id cdm_entity_type. none)
  policy ← optional_policy now policy_rows
  some (record { assignments = assignments; policy = policy })
