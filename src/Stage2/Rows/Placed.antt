-- ===== src/Stage2/Rows/Placed.antt =====
-- About the UDF of `resolve` in transform/stage2_resolve/__init__.py.
use nexus_spark_lib.Base.{
  or_default, Text, ℕ, ◌+◌, ◌≤◌, ◌<◌, ◌≡◌, refl, ◌⊎◌, inl, inr, Bool, true, false, Option, none,
  some, List, [], ◌∷◌, codes, arith, if◌then◌else◌, is_some, leb, text_eq, text_eq_refl, lower,
  upper, or_text, Bool-cases, Option-cases,
}
use nexus_spark_lib.Hashing.{Digest}
use nexus_spark_lib.Stage2.Signals.{
  ErIndex, known_id, lookup_prior_cdm_entity_id, run_signal_a, run_signal_b,
}
use nexus_spark_lib.Stage2.Outcomes.{is_other, infer_gr_operation}
use nexus_spark_lib.Stage2.Rows.{
  ResolveRow, RowResult, lookup_keys, auto_apply_of, review_lower_of, exact_row, inferred_row,
  thresholds_of, generated_id, generate_cdm_entity_id, signal_c_lift_of, by_final_score,
  by_signal_b, after_signal_a, by_signals, reresolves, indexed, by_prior, resolve_row,
}

module _ (sha256 : Digest) (er_index : ErIndex) (score_pair : Text → ℕ) (candidates : List Text)
    (run_signal_c : Option (Text → ℕ)) (r : ResolveRow) where
  abbrev pub auto : ℕ
  auto = auto_apply_of (thresholds_of sha256 er_index score_pair candidates run_signal_c r)

  abbrev pub review_lower : ℕ
  review_lower =
      review_lower_of (thresholds_of sha256 er_index score_pair candidates run_signal_c r)

  abbrev pub generated : Text
  generated = generated_id sha256 er_index score_pair candidates run_signal_c r

  -- A provisional result is in the review band, has the generated id and names a candidate; any
  -- other is exact or reaches the threshold, and names none.
  abbrev pub Band : Bool → RowResult → Type 0
  Band true res =
      (review_lower ≤ res.confidence)
      × (res.confidence < auto)
      × (res.cdm_entity_id ≡ generated)
      × (is_some res.review_candidate_id ≡ true)
  Band false res =
      (res.review_candidate_id ≡ none) × ((res.confidence ≡ 10000) ⊎ (auto ≤ res.confidence))

  -- The result is in its band, and its operation is that of its ids.
  pub record IsPlaced (res : RowResult) : Type 0 where
    pub band : Band res.is_provisional res
    pub operation :
        res.er_gr_operation
        ≡ infer_gr_operation res.prior_cdm_entity_id res.cdm_entity_id r.source_op

  inferred_row-IsPlaced :
      (id method : Text) (prior : Option Text) → IsPlaced (inferred_row r id method prior)
  inferred_row-IsPlaced id method prior = record { band = (refl, inl refl); operation = refl }

  by_final_score-IsPlaced :
      (prior : Option Text) (score lift : ℕ) (candidate : Text)
      → IsPlaced (
          by_final_score sha256 er_index score_pair candidates run_signal_c r prior score lift
            candidate)
  unfolding by_final_score
  by_final_score-IsPlaced prior score lift candidate = elim (Bool-cases (leb auto (score + lift))) [
    | inl e ↦ rw e record { band = (refl, inr (ground (arith, e))); operation = refl }
    | inr e ↦ elim (Bool-cases (leb review_lower (score + lift))) [
      | inl l ↦
          rw (e, l)
            record { band = (ground (arith, l), ground (arith, e), refl, refl); operation = refl }
      | inr l ↦ rw (e, l) record { band = (refl, inl refl); operation = refl }
    ]
  ]

  by_signal_b-IsPlaced :
      (prior : Option Text) (score : ℕ) (candidate : Option Text)
      → IsPlaced
          (by_signal_b sha256 er_index score_pair candidates run_signal_c r prior score candidate)
  unfolding by_signal_b
  by_signal_b-IsPlaced prior score none = record { band = (refl, inl refl); operation = refl }
  by_signal_b-IsPlaced prior score (some candidate) =
      by_final_score-IsPlaced prior score
        (signal_c_lift_of sha256 er_index score_pair candidates run_signal_c r score candidate)
        candidate

  after_signal_a-IsPlaced :
      (prior : Option Text) (level : Text)
      → IsPlaced (after_signal_a sha256 er_index score_pair candidates run_signal_c r prior level)
  unfolding after_signal_a
  after_signal_a-IsPlaced prior level = elim (Bool-cases (text_eq level (codes "warm"))) [
    | inl e ↦ rw e (
        inferred_row-IsPlaced
          (generate_cdm_entity_id sha256 r.tenant_id r.cdm_entity_type
            (or_default r.blocking_key (codes "None")))
          (codes "warm_new") prior)
    | inr e ↦
        let best = run_signal_b score_pair candidates in
        rw e (by_signal_b-IsPlaced prior best.0 (known_id best.1))
  ]

  by_signals-IsPlaced :
      (prior : Option Text) (level : Text)
      → IsPlaced (by_signals sha256 er_index score_pair candidates run_signal_c r prior level)
  unfolding by_signals
  by_signals-IsPlaced prior level =
      elim (Option-cases
        (known_id (run_signal_a sha256 er_index r.tenant_id r.cdm_entity_type r.fields))) [
          | inl e ↦ rw e (after_signal_a-IsPlaced prior level)
          | inr (id, e) ↦ rw e (inferred_row-IsPlaced id _ prior)
        ]

  abbrev pub is_relevel : Bool
  is_relevel = text_eq (upper r.source_op) (codes "RELEVEL")

  relevel-IsPlaced :
      (known : Text)
      → is_relevel ≡ true
      → IsPlaced (exact_row r known (codes "relevel_skip") (some known) (codes "RELEVEL"))
  unfolding infer_gr_operation
  relevel-IsPlaced known e = record { band = (refl, inl refl); operation = rw e }

  indexed-IsPlaced :
      (known level : Text)
      → IsPlaced (indexed sha256 er_index score_pair candidates run_signal_c r known level)
  unfolding indexed
  indexed-IsPlaced known level = elim (Bool-cases is_relevel) [
    | inl e ↦ rw e (relevel-IsPlaced known e)
    | inr e ↦ elim (Bool-cases (reresolves sha256 er_index score_pair candidates run_signal_c r)) [
      | inl u ↦ rw (e, u) (by_signals-IsPlaced (some known) level)
      | inr u ↦ rw (e, u) (rw e at (inferred_row-IsPlaced known (codes "fast_path") (some known)))
    ]
  ]

  by_prior-IsPlaced :
      (level : Text) (prior : Option Text)
      → IsPlaced (by_prior sha256 er_index score_pair candidates run_signal_c r level prior)
  by_prior-IsPlaced level none = by_signals-IsPlaced none level
  by_prior-IsPlaced level (some known) = indexed-IsPlaced known level

  abbrev pub level_of : Text
  level_of = lower (or_text r.materialization_level (codes "warm"))

  -- Every row is resolved, and its result fits its band: a provisional one has a score from the
  -- lower bound to below the threshold, the id that is generated from its blocking key, and a
  -- candidate for review; any other names no candidate and is exact or reaches the threshold. Its
  -- operation is the one that is inferred from its prior id, its id and the source operation.
  pub resolve_row-IsPlaced :
      IsPlaced (resolve_row sha256 er_index score_pair candidates run_signal_c r)
  unfolding resolve_row
  resolve_row-IsPlaced = elim (Bool-cases (text_eq level_of (codes "cold"))) [
    | inl e ↦ rw e (inferred_row-IsPlaced generated (codes "cold_skip") none)
    | inr e ↦
        rw e (by_prior-IsPlaced level_of (lookup_prior_cdm_entity_id er_index (lookup_keys r)))
  ]

  -- What a source that is indexed keeps.
  pub record KeepsId (known : Text) (res : RowResult) : Type 0 where
    pub same_id : res.cdm_entity_id ≡ known
    pub same_prior : res.prior_cdm_entity_id ≡ some known
    pub certain : res.confidence ≡ 10000
    pub not_provisional : res.is_provisional ≡ false
    pub no_split : res.er_gr_operation ≡ (if is_relevel then codes "RELEVEL" else codes "UPSERT")

  is_other_self : (known : Text) → is_other (some known) known ≡ false
  is_other_self [] = refl
  is_other_self (c ∷ known) = rw (text_eq_refl (c ∷ known)) refl

  relevel-KeepsId :
      (known : Text)
      → is_relevel ≡ true
      → KeepsId known (exact_row r known (codes "relevel_skip") (some known) (codes "RELEVEL"))
  relevel-KeepsId known e = record {
    same_id = refl;
    same_prior = refl;
    certain = refl;
    not_provisional = refl;
    no_split = rw e;
  }

  fast_path-KeepsId :
      (known : Text)
      → is_relevel ≡ false
      → KeepsId known (inferred_row r known (codes "fast_path") (some known))
  unfolding infer_gr_operation
  fast_path-KeepsId known e = record {
    same_id = refl;
    same_prior = refl;
    certain = refl;
    not_provisional = refl;
    no_split = rw (e, is_other_self known);
  }

  indexed-KeepsId :
      (known : Text)
      → (is_relevel ≡ true)
        ⊎ (reresolves sha256 er_index score_pair candidates run_signal_c r ≡ false)
      → KeepsId known (indexed sha256 er_index score_pair candidates run_signal_c r known level_of)
  unfolding indexed
  indexed-KeepsId known (inl e) = rw e (relevel-KeepsId known e)
  indexed-KeepsId known (inr u) = elim (Bool-cases is_relevel) [
    | inl e ↦ rw e (relevel-KeepsId known e)
    | inr e ↦ rw (e, u) (rw e at (fast_path-KeepsId known e))
  ]

  -- A row that is not COLD, whose source is indexed, and which is a RELEVEL or need not be resolved
  -- again keeps the indexed id, with an exact confidence, not provisional, and as RELEVEL or
  -- UPSERT, never as SPLIT.
  pub resolve_row-KeepsId :
      (known : Text)
      → lookup_prior_cdm_entity_id er_index (lookup_keys r) ≡ some known
      → text_eq level_of (codes "cold") ≡ false
      → (is_relevel ≡ true)
        ⊎ (reresolves sha256 er_index score_pair candidates run_signal_c r ≡ false)
      → KeepsId known (resolve_row sha256 er_index score_pair candidates run_signal_c r)
  unfolding resolve_row
  resolve_row-KeepsId known found warmer cause = rw (warmer, found) (indexed-KeepsId known cause)
