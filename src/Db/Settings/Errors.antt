-- ===== src/Db/Settings/Errors.antt =====
-- About the ValueErrors of the loaders in db/survivorship_rules.py.
use nexus_spark_lib.Base.{
  ℕ, ◌≡◌, refl, ap, ◌∙◌, Bool, not, ◌&&◌, ◌==◌, List, [], ◌∷◌, arith, keep, count_of, count-sort_by,
  is_some, sort_by, Bool-cases, Option-cases, inl, inr,
}
use nexus_spark_lib.Models.Materialization.{MaterializationPolicy}
use nexus_spark_lib.Db.Settings.{
  PolicyRow, level_of, policy_rule, row_before, is_current, append_rule, append_rules, empty_policy,
  load_materialization_policy, rule_at,
}

abbrev pub is_refused : ℕ → PolicyRow → Bool
is_refused now row = is_current now row && not (is_some (level_of row.target_level))

append_rules-refused :
    (now : ℕ) (rows : List PolicyRow) (policy : MaterializationPolicy)
    → is_some (append_rules (keep (is_current now) rows) policy)
      ≡ (count_of (is_refused now) rows == 0)
unfolding append_rules policy_rule keep count_of
append_rules-refused now [] policy = refl
append_rules-refused now (row ∷ rows) policy = elim (Bool-cases (is_current now row)) [
  | inr c ↦ rw c (append_rules-refused now rows policy ∙ ap (λ n. n == 0) (omega arith))
  | inl c ↦ elim (Option-cases (level_of row.target_level)) [
    | inl e ↦ rw (c, e) (ground arith)
    | inr (level, e) ↦
        rw (c, e)
          (append_rules-refused now rows (append_rule (rule_at row level) policy)
            ∙ ap (λ n. n == 0) (omega arith))
  ]
]

-- A policy is loaded exactly if no row of the table that has not expired has an unknown level: one
-- such row ends the whole load by a ValueError, and an expired one never does.
pub load_materialization_policy-refused :
    (now : ℕ) (rows : List PolicyRow)
    → is_some (load_materialization_policy now rows) ≡ (count_of (is_refused now) rows == 0)
unfolding load_materialization_policy
load_materialization_policy-refused now rows =
    append_rules-refused now (sort_by row_before rows) empty_policy
    ∙ ap (λ n. n == 0) (count-sort_by row_before (is_refused now) rows)
