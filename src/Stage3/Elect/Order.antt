-- ===== src/Stage3/Elect/Order.antt =====
-- About `_re_elect_winner` of transform/stage3_synthesise.py.
use nexus_spark_lib.Base.{
  Text, ◌≡◌, ap, ◌⊎◌, inl, inr, true, false, Option, none, some, List, [], ◌∷◌, arith,
  text_ltb_asym, text_ltb_trans, Reordered, sort_by-Reordered, All, Option-cases,
}
use nexus_spark_lib.Models.Survivorship.{
  SurvivorshipRuleType, most_recent, first_observed, SurvivorshipRule,
}
use nexus_spark_lib.Hashing.{Digest}
use nexus_spark_lib.Stage3.Context.{Scalar, ErIndexEntry}
use nexus_spark_lib.Stage3.Elect.{
  candidates, source_before, before, first_candidate, winner_row, re_elect_winner,
}

module _ (kind : SurvivorshipRuleType) (priority : List Text) where
  pub source_before_asym :
      (a b : ErIndexEntry)
      → source_before kind priority a b ≡ true
      → source_before kind priority b a ≡ false
  source_before_asym a b h = asym_at kind h
    where
      asym_at :
          (k : SurvivorshipRuleType)
          → source_before k priority a b ≡ true
          → source_before k priority b a ≡ false
      asym_at most_recent h =
          unfold source_before in text_ltb_asym b.source_ts a.source_ts (unfold source_before in h)
      asym_at first_observed h =
          unfold source_before in text_ltb_asym a.source_ts b.source_ts (unfold source_before in h)
      asym_at k h = unfold source_before in ground arith

  source_before_trans :
      (a b c : ErIndexEntry)
      → source_before kind priority a b ≡ true
      → source_before kind priority b c ≡ true
      → source_before kind priority a c ≡ true
  source_before_trans a b c h g = trans_at kind h g
    where
      trans_at :
          (k : SurvivorshipRuleType)
          → source_before k priority a b ≡ true
          → source_before k priority b c ≡ true
          → source_before k priority a c ≡ true
      trans_at most_recent h g =
          unfold source_before in text_ltb_trans c.source_ts b.source_ts a.source_ts g h
      trans_at first_observed h g =
          unfold source_before in text_ltb_trans a.source_ts b.source_ts c.source_ts h g
      trans_at k h g = unfold source_before in ground arith

module _ (read : ErIndexEntry → Option Scalar) where
  candidates_skip :
      (source : ErIndexEntry) (sources : List ErIndexEntry)
      → read source ≡ none
      → candidates read (source ∷ sources) ≡ candidates read sources
  unfolding candidates
  candidates_skip source sources e = rw (e, candidates)

  candidates_take :
      (source : ErIndexEntry) (sources : List ErIndexEntry) (v : Scalar)
      → read source ≡ some v
      → candidates read (source ∷ sources) ≡ (source, v) ∷ candidates read sources
  unfolding candidates
  candidates_take source sources v e = rw (e, candidates)

  -- A candidate is a source that has the attribute, with its value.
  pub All-candidates :
      (P : ErIndexEntry → Type 0) (sources : List ErIndexEntry)
      → All P sources
      → All (λ c. P c.0 × (read c.0 ≡ some c.1)) (candidates read sources)
  All-candidates P [] h = unfold candidates in tt
  All-candidates P (source ∷ sources) h = elim (Option-cases (read source)) [
    | inl e ↦ rw (candidates_skip source sources e) (All-candidates P sources h.1)
    | inr (v, e) ↦ rw (candidates_take source sources v e) ((h.0, e), All-candidates P sources h.1)
  ]

  module _ (kind : SurvivorshipRuleType) (priority : List Text) where
    candidates-keep_first :
        (x : ErIndexEntry) (xs ys : List ErIndexEntry)
        → Reordered (before kind priority) (candidates read xs) (candidates read ys)
        → Reordered (before kind priority) (candidates read (x ∷ xs)) (candidates read (x ∷ ys))
    candidates-keep_first x xs ys r = elim (Option-cases (read x)) [
      | inl e ↦ rw (candidates_skip x xs e, candidates_skip x ys e) r
      | inr (v, e) ↦
          rw (candidates_take x xs v e, candidates_take x ys v e) (Reordered.keep_first (x, v) r)
    ]

    candidates-exchange :
        (x y : ErIndexEntry) (xs : List ErIndexEntry)
        → (source_before kind priority x y ≡ true) ⊎ (source_before kind priority y x ≡ true)
        → Reordered
            (before kind priority)
            (candidates read (x ∷ y ∷ xs))
            (candidates read (y ∷ x ∷ xs))
    candidates-exchange x y xs d = elim (Option-cases (read x)) [
      | inl e ↦ rw (candidates_skip x (y ∷ xs) e) (
          candidates-keep_first y xs (x ∷ xs)
            (rw (candidates_skip x xs e) (Reordered.same (candidates read xs))))
      | inr (v, e) ↦ elim (Option-cases (read y)) [
        | inl f ↦ rw (candidates_skip y (x ∷ xs) f) (
            candidates-keep_first x (y ∷ xs) xs
              (rw (candidates_skip y xs f) (Reordered.same (candidates read xs))))
        | inr (w, f) ↦
            rw
              (
                candidates_take x (y ∷ xs) v e,
                candidates_take y (x ∷ xs) w f,
                candidates_take y xs w f,
                candidates_take x xs v e,
              )
              (Reordered.exchange (x, v) (y, w) (candidates read xs) d)
      ]
    ]

    candidates-Reordered :
        {xs ys : List ErIndexEntry}
        → Reordered (source_before kind priority) xs ys
        → Reordered (before kind priority) (candidates read xs) (candidates read ys)
    candidates-Reordered (Reordered.same xs) = Reordered.same (candidates read xs)
    candidates-Reordered (Reordered.keep_first x {xs} {ys} r) =
        candidates-keep_first x xs ys (candidates-Reordered r)
    candidates-Reordered (Reordered.exchange x y xs d) = candidates-exchange x y xs d
    candidates-Reordered (Reordered.then_to r s) =
        Reordered.then_to (candidates-Reordered r) (candidates-Reordered s)

module _ (sha256 : Digest) (read : ErIndexEntry → Option Scalar) (cdm_entity_id attr_name : Text)
    (rule : SurvivorshipRule) where
  -- The elected row is the same for two orders of the sources which differ by exchanges of
  -- neighbours that the rule tells apart.
  pub re_elect_winner-Reordered :
      {xs ys : List ErIndexEntry}
      → Reordered (source_before rule.rule_type rule.priority_sources) xs ys
      → re_elect_winner sha256 read cdm_entity_id attr_name xs rule
        ≡ re_elect_winner sha256 read cdm_entity_id attr_name ys rule
  unfolding re_elect_winner
  re_elect_winner-Reordered {xs} {ys} r =
      ap
        (λ cs.
          winner_row sha256 cdm_entity_id attr_name rule.rule_type
            (first_candidate rule.rule_type cs))
        (sort_by-Reordered (before rule.rule_type rule.priority_sources)
          (λ a b. source_before_asym rule.rule_type rule.priority_sources a.0 b.0)
          (λ a b c. source_before_trans rule.rule_type rule.priority_sources a.0 b.0 c.0)
          (candidates-Reordered read rule.rule_type rule.priority_sources r))
