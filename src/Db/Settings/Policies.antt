-- ===== src/Db/Settings/Policies.antt =====
-- About `load_materialization_policy` of db/survivorship_rules.py: the decisions on a loaded policy.
use nexus_spark_lib.Base.{
  none-ne-some, Text, ℕ, ◌≤◌, ◌≡◌, refl, ap, ◌∙◌, sym, subst, Bool, true, false, Option, none, some,
  List, [], ◌∷◌, ◌++◌, arith, keep, if◌then◌else◌, codes, none-ne-some, sort_by, Bool-cases,
  Option-cases, inl, inr,
}
use nexus_spark_lib.Models.Predicate.{eval_predicate, is_true, Truth}
use nexus_spark_lib.Models.Materialization.{
  rule_before, first_decision, PolicyRule, first_decision, rule_before, MaterializationLevel,
  MaterializationPolicy, is_active, matching, get_rules, evaluate, unexpired,
}
use nexus_spark_lib.Models.Materialization.Choice.{IsDecision, evaluate-IsDecision}
use nexus_spark_lib.Db.Settings.{
  PolicyRow, level_of, policy_rule, row_before, is_current, current_rows, in_scope, append_rule,
  append_rules, empty_policy, load_materialization_policy, with_level,
}

-- The rules of the rows whose level is known.
abbrev add_some : Option PolicyRule → List PolicyRule → List PolicyRule
add_some none rules = rules
add_some (some rule) rules = rule ∷ rules

unfoldable pub parsed : List PolicyRow → List PolicyRule
parsed [] = []
parsed (row ∷ rows) = add_some (policy_rule row) (parsed rows)

-- The policy that all rows of the table make, expired or not.
abbrev pub table_policy : List PolicyRow → MaterializationPolicy
table_policy rows = record {
  rules_by_scope =
      λ tenant_id scope. keep (in_scope tenant_id scope) (parsed (sort_by row_before rows));
}

keep-append :
    {A : Type 0} (p : A → Bool) (xs ys : List A) → keep p (xs ++ ys) ≡ keep p xs ++ keep p ys
unfolding keep
keep-append p [] ys = refl
keep-append p (x ∷ xs) ys = ground (arith, keep-append p xs ys)

keep-both :
    {A : Type 0} (p : A → Bool) (xs ys zs ws : List A)
    → keep p xs ≡ keep p ys
    → keep p zs ≡ keep p ws
    → keep p (xs ++ zs) ≡ keep p (ys ++ ws)
keep-both p xs ys zs ws e f = rw (keep-append p xs zs, keep-append p ys ws, e, f) refl

append_assoc : {A : Type 0} (xs ys zs : List A) → (xs ++ ys) ++ zs ≡ xs ++ (ys ++ zs)
append_assoc [] ys zs = refl
append_assoc (x ∷ xs) ys zs = ap (λ t. x ∷ t) (append_assoc xs ys zs)

append_empty : {A : Type 0} (xs : List A) → xs ++ [] ≡ xs
append_empty [] = refl
append_empty (x ∷ xs) = ap (λ t. x ∷ t) (append_empty xs)

appended :
    (b : Bool) (rule : PolicyRule) (xs ys : List PolicyRule)
    → (if b then xs ++ rule ∷ [] else xs) ++ ys ≡ xs ++ (if b then rule ∷ ys else ys)
appended true rule xs ys = append_assoc xs (rule ∷ []) ys
appended false rule xs ys = refl

abbrev rules_in : Text → Text → Option MaterializationPolicy → List PolicyRule
rules_in tenant_id scope none = []
rules_in tenant_id scope (some policy) = policy.rules_by_scope tenant_id scope

append_rules-scopes :
    (rows : List PolicyRow) (policy loaded : MaterializationPolicy)
    → append_rules rows policy ≡ some loaded
    → (tenant_id scope : Text)
    → loaded.rules_by_scope tenant_id scope
      ≡ policy.rules_by_scope tenant_id scope ++ keep (in_scope tenant_id scope) (parsed rows)
unfolding append_rules parsed keep
append_rules-scopes [] policy loaded e t s = ap (rules_in t s) (sym e) ∙ sym (append_empty _)
append_rules-scopes (row ∷ rows) policy loaded e t s = elim (Option-cases (policy_rule row)) [
  | inl n ↦ absurd (none-ne-some (rw n at e))
  | inr (rule, n) ↦ rw n (
      append_rules-scopes rows (append_rule rule policy) loaded (rw n at e) t s
      ∙ appended (in_scope t s rule) rule (policy.rules_by_scope t s) _)
]

abbrev until_of : Option ℕ → Option PolicyRule → Option ℕ
until_of d none = d
until_of d (some rule) = rule.valid_until

module _ (loaded_at now : ℕ) (later : loaded_at ≤ now) where
  unexpired_later : (v : Option ℕ) → unexpired loaded_at v ≡ false → unexpired now v ≡ false
  unexpired_later none h = cc
  unexpired_later (some v) h = ground (arith, h, later)

  expired_rule :
      (row : PolicyRow) (rule : PolicyRule)
      → policy_rule row ≡ some rule
      → is_current loaded_at row ≡ false
      → is_active now rule ≡ false
  unfolding policy_rule is_active
  expired_rule row rule e h =
      let u = unexpired_later row.valid_until h in
      let v = same_until (level_of row.target_level) e in ground (arith, u, v)
    where
      same_until :
          (o : Option MaterializationLevel)
          → with_level row o ≡ some rule
          → row.valid_until ≡ rule.valid_until
      same_until none e = absurd (none-ne-some e)
      same_until (some level) e = ap (until_of row.valid_until) e

  abbrev active_in : Text → Text → List PolicyRule → List PolicyRule
  active_in t s rules = keep (is_active now) (keep (in_scope t s) rules)

  active-cons :
      (t s : Text) (rule : PolicyRule) (xs ys : List PolicyRule)
      → active_in t s xs ≡ active_in t s ys
      → active_in t s (rule ∷ xs) ≡ active_in t s (rule ∷ ys)
  unfolding keep
  active-cons t s rule xs ys h = ground (arith, h)

  active-expired :
      (t s : Text) (rule : PolicyRule) (xs : List PolicyRule)
      → is_active now rule ≡ false
      → active_in t s (rule ∷ xs) ≡ active_in t s xs
  unfolding keep
  active-expired t s rule xs h = ground (arith, h)

  active-current :
      (t s : Text) (rows : List PolicyRow)
      → active_in t s (parsed (keep (is_current loaded_at) rows)) ≡ active_in t s (parsed rows)
  unfolding keep parsed
  active-current t s [] = refl
  active-current t s (row ∷ rows) =
      let h = active-current t s rows in
      elim (Bool-cases (is_current loaded_at row)) [
        | inl c ↦ rw c (kept (policy_rule row) h)
        | inr c ↦ rw c (h ∙ sym (dropped (policy_rule row) refl c))
      ]
    where
      kept :
          (o : Option PolicyRule)
          → active_in t s (parsed (keep (is_current loaded_at) rows)) ≡ active_in t s (parsed rows)
          → active_in t s (add_some o (parsed (keep (is_current loaded_at) rows)))
            ≡ active_in t s (add_some o (parsed rows))
      kept none h = h
      kept (some rule) h = active-cons t s rule _ _ h

      dropped :
          (o : Option PolicyRule)
          → policy_rule row ≡ o
          → is_current loaded_at row ≡ false
          → active_in t s (add_some o (parsed rows)) ≡ active_in t s (parsed rows)
      dropped none e c = refl
      dropped (some rule) e c = active-expired t s rule (parsed rows) (expired_rule row rule e c)

  module _ (rows : List PolicyRow) (policy : MaterializationPolicy)
      (loads : load_materialization_policy loaded_at rows ≡ some policy) where
    abbrev SameActive : List PolicyRule → List PolicyRule → Type 0
    SameActive xs ys = keep (is_active now) xs ≡ keep (is_active now) ys

    scope-current :
        (t s : Text)
        → SameActive (policy.rules_by_scope t s) ((table_policy rows).rules_by_scope t s)
    unfolding load_materialization_policy
    scope-current t s =
        ap (keep (is_active now))
          (append_rules-scopes (current_rows loaded_at rows) empty_policy policy loads t s)
        ∙ active-current t s (sort_by row_before rows)

    get_rules-current :
        (t y : Text) → SameActive (get_rules policy t y) (get_rules (table_policy rows) t y)
    unfolding get_rules
    get_rules-current t y = keep-both (is_active now) _ _ _ _ (scope-current t y) (
        keep-both (is_active now) _ _ _ _ (scope-current t (codes "*")) (
          keep-both (is_active now) _ _ _ _ (scope-current (codes "*") y)
            (scope-current (codes "*") (codes "*"))))

    evaluate-current :
        (test : Text → Truth) (t y : Text)
        → evaluate test now (table_policy rows) t y ≡ evaluate test now policy t y
    unfolding evaluate matching
    evaluate-current test t y =
        ap
          (λ rules. first_decision now (
            sort_by rule_before
              (keep (λ rule. is_true (eval_predicate test rule.predicate)) rules)))
          (sym (get_rules-current t y))

    -- The load of a policy drops the rules that have expired, and no decision is lost by it:
    -- whatever is decided on the loaded policy, at the time of the load or later, is the decision
    -- which the policy made of all rows of the table whose level is known, expired or not, asks
    -- for: a rule of the record's scopes that applies and that no other such rule comes before, or
    -- the WARM default if none applies.
    pub evaluate-load_materialization_policy :
        (test : Text → Truth) (tenant_id cdm_entity_type : Text)
        → IsDecision test now
            (get_rules (table_policy rows) tenant_id cdm_entity_type)
            (evaluate test now policy tenant_id cdm_entity_type)
    evaluate-load_materialization_policy test t y =
        subst (IsDecision test now (get_rules (table_policy rows) t y)) (evaluate-current test t y)
          (evaluate-IsDecision test now (table_policy rows) t y)
