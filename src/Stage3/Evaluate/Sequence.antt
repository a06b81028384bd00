-- ===== src/Stage3/Evaluate/Sequence.antt =====
-- About `_evaluate_survivorship` of transform/stage3_synthesise.py over the records that reach one
-- attribute, one after another.
use nexus_spark_lib.Base.{
  Text, ◌≡◌, refl, subst, sym, ap, ◌∙◌, ◌⊎◌, inl, inr, Bool, true, false, ◌&&◌, Option, none, some,
  List, [], ◌∷◌, ◌++◌, All, arith, text_eq,
}
use nexus_spark_lib.Models.Survivorship.{
  SurvivorshipRuleType, most_recent, most_confident, source_priority, most_complete, first_observed,
  manual, longest_value, exact_match, SurvivorshipRule, ProvenanceRow,
}
use nexus_spark_lib.Hashing.{Digest}
use nexus_spark_lib.Stage3.Context.{str, ProvenanceChange}
use nexus_spark_lib.Stage3.Evaluate.{
  completeness, Standing, apply_survivorship_rule, make_provenance_row, same_observation, is_manual,
  evaluate_survivorship,
}
use nexus_spark_lib.Stage3.Evaluate.Ranks.{Sent, Outranks, Outranks-weak, Outranks-trans}

-- Records of different sources.
abbrev pub AreApart : Sent → Sent → Type 0
AreApart (a, v) (b, w) =
    (text_eq a.connector_id b.connector_id && text_eq a.source_record_id b.source_record_id) ≡ false

abbrev pub ArePairwiseApart : List Sent → Type 0
ArePairwiseApart [] = Unit
ArePairwiseApart (c ∷ cs) = All (AreApart c) cs × ArePairwiseApart cs

-- The record that wins outranks every record before it, and is outranked by none after it.
abbrev pub IsWinner : SurvivorshipRuleType → List Text → List Sent → Sent → Type 0
IsWinner kind priority cs w =
    (before : List Sent) × (after : List Sent) × (cs ≡ before ++ (w ∷ after))
    × All (λ c. Outranks kind priority w c) before
    × All (λ c. ¬ Outranks kind priority c w) after

module _ (sha256 : Digest) (attr_name : Text) (rule : SurvivorshipRule)
    (stand : ProvenanceRow → Standing) where
  abbrev pub next : Option ProvenanceRow → Option ProvenanceChange → Option ProvenanceRow
  next existing none = existing
  next existing (some change) = some change.row

  -- The row of the attribute after these records.
  unfoldable pub evaluate_all : List Sent → Option ProvenanceRow → Option ProvenanceRow
  evaluate_all [] existing = existing
  evaluate_all ((r, v) ∷ cs) existing =
      evaluate_all cs
        (next existing (evaluate_survivorship sha256 attr_name v r existing rule stand))

  abbrev pub row_of : Sent → ProvenanceRow
  row_of (r, v) = make_provenance_row r attr_name (sha256 (str v)) rule.rule_type

  -- The stores know the completeness and the confidence of the record of a row.
  abbrev pub IsKnown : Sent → Type 0
  IsKnown (r, v) =
      stand (row_of (r, v))
      ≡ record { completeness_score = completeness r; confidence = r.er_confidence }

  abbrev rule_applied : Sent → Sent → SurvivorshipRuleType → Bool
  rule_applied (b, w) (a, v) kind =
      apply_survivorship_rule kind rule.priority_sources a
        (make_provenance_row b attr_name (sha256 (str w)) rule.rule_type)
        record { completeness_score = completeness b; confidence = b.er_confidence }

  -- The rule's test is what the rule means.
  rule_applied-Outranks :
      (b a : Sent) (kind : SurvivorshipRuleType)
      → ((is_manual kind ≡ false)
          × (rule_applied b a kind ≡ true)
          × Outranks kind rule.priority_sources a b)
        ⊎ (((is_manual kind ≡ true) ⊎ (rule_applied b a kind ≡ false))
            × ¬ Outranks kind rule.priority_sources a b)
  unfolding apply_survivorship_rule make_provenance_row
  rule_applied-Outranks (b, w) (a, v) source_priority = ground arith
  rule_applied-Outranks (b, w) (a, v) most_recent = ground arith
  rule_applied-Outranks (b, w) (a, v) most_complete = ground arith
  rule_applied-Outranks (b, w) (a, v) most_confident = ground arith
  rule_applied-Outranks b a first_observed = inr (inr refl, λ h. h)
  rule_applied-Outranks b a manual = inr (inl refl, λ h. h)
  rule_applied-Outranks b a longest_value = inr (inr refl, λ h. h)
  rule_applied-Outranks b a exact_match = inr (inr refl, λ h. h)

  abbrev step : Sent → Sent → Option ProvenanceRow
  step w (r, v) =
      next (some (row_of w))
        (evaluate_survivorship sha256 attr_name v r (some (row_of w)) rule stand)

  step_cases :
      (w c : Sent)
      → AreApart w c
      → IsKnown w
      → (Outranks rule.rule_type rule.priority_sources c w × (step w c ≡ some (row_of c)))
        ⊎ (¬ Outranks rule.rule_type rule.priority_sources c w × (step w c ≡ some (row_of w)))
  unfolding evaluate_survivorship same_observation make_provenance_row
  step_cases (b, w) (a, v) apart known = elim (rule_applied-Outranks (b, w) (a, v) rule.rule_type) [
    | inl (auto, beats, outranks) ↦ inl (outranks, won auto beats)
    | inr (inl is_man, outranked) ↦ inr (outranked, rw is_man refl)
    | inr (inr loses, outranked) ↦ inr (outranked, lost loses)
  ]
    where
      observed : Bool
      observed = rule_applied (b, w) (a, v) rule.rule_type

      won :
          is_manual rule.rule_type ≡ false
          → observed ≡ true
          → step (b, w) (a, v) ≡ some (row_of (a, v))
      won auto beats = rw (auto, known, beats) (ground (arith, apart))

      lost : observed ≡ false → step (b, w) (a, v) ≡ some (row_of (b, w))
      lost loses = rw (known, loses) (ground arith)

  -- The winner over the records that follow `w`: it stays, or another one wins.
  abbrev IsNext : Sent → List Sent → Sent → Type 0
  IsNext w todo final =
      ((final ≡ w) × All (λ c. ¬ Outranks rule.rule_type rule.priority_sources c w) todo)
      ⊎ (IsWinner rule.rule_type rule.priority_sources todo final
          × Outranks rule.rule_type rule.priority_sources final w)

  IsNext-step :
      (w c final : Sent) (todo : List Sent)
      → ¬ Outranks rule.rule_type rule.priority_sources c w
      → IsNext w todo final
      → IsNext w (c ∷ todo) final
  IsNext-step w c final todo h (inl (same, stays)) = inl (same, (h, stays))
  IsNext-step w c final todo h (inr ((before, after, e, beaten, unbeaten), outranks)) = inr (
    (
      c ∷ before,
      after,
      ap (λ cs. c ∷ cs) e,
      (Outranks-weak rule.rule_type rule.priority_sources final w c outranks h, beaten),
      unbeaten,
    ),
    outranks,
  )

  IsWinner-of_next :
      (c final : Sent) (todo : List Sent)
      → IsNext c todo final
      → IsWinner rule.rule_type rule.priority_sources (c ∷ todo) final
  IsWinner-of_next c final todo (inl (same, stays)) =
      subst (IsWinner rule.rule_type rule.priority_sources (c ∷ todo)) (sym same)
        ([], todo, refl, tt, stays)
  IsWinner-of_next c final todo (inr ((before, after, e, beaten, unbeaten), outranks)) =
      (c ∷ before, after, ap (λ cs. c ∷ cs) e, (outranks, beaten), unbeaten)

  IsNext-won :
      (w c final : Sent) (todo : List Sent)
      → Outranks rule.rule_type rule.priority_sources c w
      → IsNext c todo final
      → Outranks rule.rule_type rule.priority_sources final w
  IsNext-won w c final todo h (inl (same, _)) =
      subst (λ x. Outranks rule.rule_type rule.priority_sources x w) (sym same) h
  IsNext-won w c final todo h (inr (_, outranks)) =
      Outranks-trans rule.rule_type rule.priority_sources final c w outranks h

  evaluate_all-IsNext :
      (w : Sent) (todo : List Sent)
      → ArePairwiseApart (w ∷ todo)
      → All IsKnown (w ∷ todo)
      → (final : Sent) × (evaluate_all todo (some (row_of w)) ≡ some (row_of final))
        × IsNext w todo final
  unfolding evaluate_all
  evaluate_all-IsNext w [] apart known = (w, refl, inl (refl, tt))
  evaluate_all-IsNext w (c ∷ todo) ((w_c, w_todo), (c_todo, todo_apart))
        (w_known, (c_known, known)) =
      elim (step_cases w c w_c w_known) [
        | inl (outranks, won) ↦
            (let (final, e, is_next) =
                evaluate_all-IsNext c todo (c_todo, todo_apart) (c_known, known) in
              (
                final,
                ap (evaluate_all todo) won ∙ e,
                inr (
                  IsWinner-of_next c final todo is_next,
                  IsNext-won w c final todo outranks is_next,
                ),
              ))
        | inr (outranked, lost) ↦
            (let (final, e, is_next) =
                evaluate_all-IsNext w todo (w_todo, todo_apart) (w_known, known) in
              (
                final,
                ap (evaluate_all todo) lost ∙ e,
                IsNext-step w c final todo outranked is_next,
              ))
      ]

  -- Records of different sources, whose completeness and confidence the stores know, reach one
  -- attribute one after another: it ends with the row of one of them, which by the meaning of the
  -- rule outranks every record before it and is outranked by none after it.
  pub evaluate_all-IsWinner :
      (c : Sent) (cs : List Sent)
      → ArePairwiseApart (c ∷ cs)
      → All IsKnown (c ∷ cs)
      → (w : Sent) × (evaluate_all (c ∷ cs) none ≡ some (row_of w))
        × IsWinner rule.rule_type rule.priority_sources (c ∷ cs) w
  unfolding evaluate_all evaluate_survivorship
  evaluate_all-IsWinner c cs apart known =
      let (final, e, is_next) = evaluate_all-IsNext c cs apart known in
      (final, e, IsWinner-of_next c final cs is_next)
