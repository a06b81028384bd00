-- ===== src/Db/Settings/Rules.antt =====
-- `load_survivorship_rules` of nexus_spark_lib/db/survivorship_rules.py.
use nexus_spark_lib.Base.{
  Text, ℕ, ◌≡◌, refl, ap, ◌∙◌, sym, Bool, true, false, Option, none, some, List, [], ◌∷◌, arith,
  codes, keep, if◌then◌else◌, is_some, not, text_eq_iff, Dict, dict_get, or_default, or_else,
  Bool-cases, Option-cases, inl, inr, none-ne-some,
}
use nexus_spark_lib.Models.Survivorship.{
  SurvivorshipRuleType, most_recent, most_confident, source_priority, most_complete, first_observed,
  manual, longest_value, exact_match, SurvivorshipRule, RuleKey, rule_key_eq, SurvivorshipRuleSet,
  default_rule, get_rule,
}
use nexus_spark_lib.Db.Settings.{◌>>=◌}

-- survivorship_rules
pub record RuleRow : Type 0 where
  pub tenant_id : Text
  pub cdm_entity_type : Text
  pub attribute_name : Text
  pub rule_type : Text
  pub priority_sources : Option (List Text)
  pub fallback_rule_type : Text
  pub superseded_at : Option ℕ

-- The values of SurvivorshipRuleType.
abbrev pub rule_types : Dict SurvivorshipRuleType
rule_types =
    (codes "most_recent", most_recent)
    ∷ (codes "most_confident", most_confident)
    ∷ (codes "source_priority", source_priority)
    ∷ (codes "most_complete", most_complete)
    ∷ (codes "first_observed", first_observed)
    ∷ (codes "manual", manual)
    ∷ (codes "longest_value", longest_value)
    ∷ (codes "exact_match", exact_match)
    ∷ []

abbrev fallback_of : Text → Option (Option SurvivorshipRuleType)
fallback_of [] = some none
fallback_of (c ∷ s) = do kind ← dict_get (c ∷ s) rule_types; some (some kind)

unfoldable pub rule_of : RuleRow → Option SurvivorshipRule
unfolding dict_get
rule_of row = do
  kind ← dict_get row.rule_type rule_types
  fallback ← fallback_of row.fallback_rule_type
  some (record {
    tenant_id = row.tenant_id;
    cdm_entity_type = row.cdm_entity_type;
    attribute_name = row.attribute_name;
    rule_type = kind;
    priority_sources = or_default row.priority_sources [];
    fallback_rule_type = fallback;
  })

abbrev pub key_of : RuleRow → RuleKey
key_of row = (row.tenant_id, row.cdm_entity_type, row.attribute_name)

-- ruleset.rules[key] = rule
unfoldable pub set_rule : RuleKey → SurvivorshipRule → SurvivorshipRuleSet → SurvivorshipRuleSet
set_rule key rule [] = (key, rule) ∷ []
set_rule key rule ((k, r) ∷ rules) =
    if rule_key_eq k key then (k, rule) ∷ rules else (k, r) ∷ set_rule key rule rules

unfoldable pub set_rules : List RuleRow → SurvivorshipRuleSet → Option SurvivorshipRuleSet
set_rules [] rules = some rules
set_rules (row ∷ rows) rules = do
  rule ← rule_of row
  set_rules rows (set_rule (key_of row) rule rules)

-- WHERE superseded_at IS NULL
abbrev pub in_force : RuleRow → Bool
in_force row = not (is_some row.superseded_at)

unfoldable pub load_survivorship_rules : List RuleRow → Option SurvivorshipRuleSet
unfolding set_rules rule_of set_rule keep
load_survivorship_rules rows = set_rules (keep in_force rows) []

-- The rule of the last row with a key.
unfoldable pub last_rule : RuleKey → List RuleRow → Option SurvivorshipRule
last_rule key [] = none
last_rule key (row ∷ rows) =
    or_else (last_rule key rows) (if rule_key_eq (key_of row) key then rule_of row else none)

rule_key_eq→eq : (j k : RuleKey) → rule_key_eq j k ≡ true → j ≡ k
rule_key_eq→eq (t, y, a) (t', y', a') h = let (p, q, s) = parts in rw (p, q, s) refl
  where
    parts : (t ≡ t') × (y ≡ y') × (a ≡ a')
    parts = ground (arith, text_eq_iff t t', text_eq_iff y y', text_eq_iff a a')

module _ (t y a : Text) where
  abbrev looked_up : SurvivorshipRuleSet → SurvivorshipRule
  looked_up rules = get_rule rules t y a

  other_key :
      (k key : RuleKey)
      → rule_key_eq k key ≡ false
      → rule_key_eq key (t, y, a) ≡ true
      → rule_key_eq k (t, y, a) ≡ false
  other_key k key e m = ap (rule_key_eq k) (sym (rule_key_eq→eq key (t, y, a) m)) ∙ e

  get_rule-set_rule :
      (key : RuleKey) (rule : SurvivorshipRule) (rules : SurvivorshipRuleSet)
      → looked_up (set_rule key rule rules)
        ≡ (if rule_key_eq key (t, y, a) then rule else looked_up rules)
  unfolding get_rule set_rule
  get_rule-set_rule key rule [] = refl
  get_rule-set_rule key rule ((k, r) ∷ rules) =
      let here = rule_key_eq key (t, y, a) in
      elim (Bool-cases (rule_key_eq k key)) [
        | inl e ↦
            let there = ap (λ j. rule_key_eq j (t, y, a)) (rule_key_eq→eq k key e) in
            elim (Bool-cases here) [
              | inl m ↦ rw (e, there ∙ m, m) refl
              | inr m ↦ rw (e, there ∙ m, m) refl
            ]
        | inr e ↦ elim (Bool-cases here) [
          | inl m ↦ rw (e, m, other_key k key e m, get_rule-set_rule key rule rules, m) refl
          | inr m ↦ rw (e, m, get_rule-set_rule key rule rules, m) refl
        ]
      ]

  set_rules-last :
      (rows : List RuleRow) (rules loaded : SurvivorshipRuleSet)
      → set_rules rows rules ≡ some loaded
      → looked_up loaded ≡ or_default (last_rule (t, y, a) rows) (looked_up rules)
  unfolding set_rules last_rule
  set_rules-last [] rules loaded e = ap (λ o. looked_up (or_default o rules)) (sym e)
  set_rules-last (row ∷ rows) rules loaded e = elim (Option-cases (rule_of row)) [
    | inl n ↦ absurd (none-ne-some (rw n at e))
    | inr (rule, n) ↦ rw n (
        set_rules-last rows (set_rule (key_of row) rule rules) loaded (rw n at e)
        ∙ ap (or_default (last_rule (t, y, a) rows)) (get_rule-set_rule (key_of row) rule rules)
        ∙ chosen (last_rule (t, y, a) rows) (rule_key_eq (key_of row) (t, y, a)) rule)
  ]
    where
      chosen :
          (o : Option SurvivorshipRule) (b : Bool) (rule : SurvivorshipRule)
          → or_default o (if b then rule else looked_up rules)
            ≡ or_default (or_else o (if b then some rule else none)) (looked_up rules)
      chosen (some r) b rule = refl
      chosen none true rule = refl
      chosen none false rule = refl

  -- A loaded rule set has the rule of the last row in force with the key, or the default rule.
  pub get_rule-load_survivorship_rules :
      (rows : List RuleRow) (rules : SurvivorshipRuleSet)
      → load_survivorship_rules rows ≡ some rules
      → get_rule rules t y a
        ≡ or_default (last_rule (t, y, a) (keep in_force rows)) (default_rule t y a)
  unfolding load_survivorship_rules get_rule
  get_rule-load_survivorship_rules rows rules e = set_rules-last (keep in_force rows) [] rules e
