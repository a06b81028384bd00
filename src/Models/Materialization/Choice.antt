-- ===== src/Models/Materialization/Choice.antt =====
-- About `MaterializationPolicy.evaluate` of models/materialization.py.
use nexus_spark_lib.Base.{
  All-of_sort_by, Text, ℕ, true, false, ◌≡◌, refl, List, [], ◌∷◌, arith, keep, sort_by,
  sort_by-first, All, Among, All-keep, All-of_keep, All-Among, All-map_lem,
}
use nexus_spark_lib.Models.Predicate.{Truth, is_true, eval_predicate}
use nexus_spark_lib.Models.Materialization.{
  PolicyRule, MaterializationPolicy, MaterializationDecision, is_active, rule_before,
  default_decision, decision_of, first_decision, matching, get_rules, evaluate,
}

rule_before_asym : (a b : PolicyRule) → rule_before a b ≡ true → rule_before b a ≡ false
unfolding rule_before
rule_before_asym a b e = ground arith

rule_before_negtrans :
    (a b c : PolicyRule)
    → rule_before a b ≡ false
    → rule_before b c ≡ false
    → rule_before a c ≡ false
unfolding rule_before
rule_before_negtrans a b c e f = ground arith

rule_before_irrefl : (a : PolicyRule) → rule_before a a ≡ false
unfolding rule_before
rule_before_irrefl a = ground arith

module _ (test : Text → Truth) (now : ℕ) where
  -- A rule decides if its window is open and its predicate is true, not merely unknown.
  abbrev pub Applies : PolicyRule → Type 0
  Applies rule = (is_active now rule ≡ true) × (is_true (eval_predicate test rule.predicate) ≡ true)

  -- The decision on a list of rules: that of a rule which applies and which no rule that applies
  -- comes before, or the default if none applies.
  pub data IsDecision (rules : List PolicyRule) (decision : MaterializationDecision) : Type 0 where
    by_rule :
        (winner : PolicyRule)
        → Among winner rules
        → Applies winner
        → All (λ rule. Applies rule → rule_before rule winner ≡ false) rules
        → decision ≡ decision_of now winner
        → IsDecision rules decision
    by_default :
        All (λ rule. ¬ Applies rule) rules
        → decision ≡ default_decision now
        → IsDecision rules decision

  All-matching :
      (P : PolicyRule → Type 0) (rules : List PolicyRule)
      → All P (matching test now rules)
      → All (λ rule. Applies rule → P rule) rules
  unfolding matching
  All-matching P rules h =
      All-map_lem
        (λ rule.
          is_active now rule ≡ true → is_true (eval_predicate test rule.predicate) ≡ true → P rule)
        (λ rule. Applies rule → P rule) rules (λ rule f a. f a.0 a.1)
        (All-of_keep (λ rule. is_true (eval_predicate test rule.predicate) ≡ true → P rule)
          (is_active now) rules
          (All-of_keep P (λ rule. is_true (eval_predicate test rule.predicate))
            (keep (is_active now) rules) h))

  matching_apply :
      (rules : List PolicyRule)
      → All (λ rule. Among rule rules × Applies rule) (matching test now rules)
  unfolding matching
  matching_apply rules =
      All-map_lem
        (λ rule.
          (Among rule rules × (is_active now rule ≡ true))
          × (is_true (eval_predicate test rule.predicate) ≡ true))
        (λ rule. Among rule rules × Applies rule) (matching test now rules)
        (λ rule ((among, active), holds). (among, (active, holds)))
        (All-keep (λ rule. Among rule rules × (is_active now rule ≡ true))
          (λ rule. is_true (eval_predicate test rule.predicate)) (keep (is_active now) rules)
          (All-keep (λ rule. Among rule rules) (is_active now) rules (All-Among rules)))

  IsDecision-of_sorted :
      (rules sorted : List PolicyRule)
      → sort_by rule_before (matching test now rules) ≡ sorted
      → IsDecision rules (first_decision now sorted)
  IsDecision-of_sorted rules [] e =
      by_default
        (All-matching (λ rule. ⊥) rules
          (All-of_sort_by rule_before (λ rule. ⊥) (matching test now rules) (rw e tt)))
        refl
  IsDecision-of_sorted rules (winner ∷ rest) e =
      let ((among, applies), unbeaten) =
        sort_by-first rule_before rule_before_asym rule_before_negtrans rule_before_irrefl
          (λ rule. Among rule rules × Applies rule) (matching test now rules) rest winner
          (matching_apply rules) e in
      by_rule winner among applies
        (All-matching (λ rule. rule_before rule winner ≡ false) rules unbeaten) refl

  pub evaluate-IsDecision :
      (policy : MaterializationPolicy) (tenant_id cdm_entity_type : Text)
      → IsDecision
          (get_rules policy tenant_id cdm_entity_type)
          (evaluate test now policy tenant_id cdm_entity_type)
  unfolding evaluate
  evaluate-IsDecision policy tenant_id cdm_entity_type =
      IsDecision-of_sorted (get_rules policy tenant_id cdm_entity_type)
        (sort_by rule_before (matching test now (get_rules policy tenant_id cdm_entity_type))) refl
