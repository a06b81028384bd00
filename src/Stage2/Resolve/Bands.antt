-- ===== src/Stage2/Resolve/Bands.antt =====
-- About `resolve_record` of transform/stage2_resolve/resolve_record.py.
use nexus_spark_lib.Base.{
  Text, ℕ, ◌+◌, ◌≤◌, ◌<◌, ◌≡◌, refl, ◌⊎◌, inl, inr, Bool, true, false, Option, none, some, List, [],
  ◌∷◌, arith, leb, Bool-cases, Option-cases, Dict,
}
use nexus_spark_lib.Stage3.Context.{Field}
use nexus_spark_lib.Hashing.{Digest}
use nexus_spark_lib.Stage2.Signals.{
  ErIndex, Thresholds, known_id, run_signal_a, run_signal_b, Verdict, auto_apply, review, no_match,
  auto_threshold, review_bound, classify_signal_b,
}
use nexus_spark_lib.Stage2.Resolve.{
  Attempt, returned, type_error, Resolved, ResolutionAction, action_auto_apply, action_review,
  action_new_entity, action_unresolved, in_review, by_verdict, by_score, resolve_signals,
}

abbrev InReview : Thresholds → ℕ → Type 0
InReview t score = (review_bound t ≤ score) × (score < auto_threshold t)

-- No candidate, a score that is not positive, or one that is below both bounds.
abbrev IsUnmatched : Thresholds → ℕ → Option Text → Type 0
IsUnmatched t score candidate =
    (known_id candidate ≡ none)
    ⊎ (score ≤ 0)
    ⊎ ((score < auto_threshold t) × (score < review_bound t))

classify_auto_apply :
    (score : ℕ) (id : Option Text) (t : Thresholds)
    → classify_signal_b score id t ≡ auto_apply
    → auto_threshold t ≤ score
unfolding classify_signal_b
classify_auto_apply score none t e = ground arith
classify_auto_apply score (some id) t e = ground arith

classify_review :
    (score : ℕ) (id : Option Text) (t : Thresholds)
    → classify_signal_b score id t ≡ review
    → InReview t score
unfolding classify_signal_b
classify_review score none t e = ground arith
classify_review score (some id) t e = ground arith

classify_no_match :
    (score : ℕ) (id : Option Text) (t : Thresholds)
    → classify_signal_b score id t ≡ no_match
    → IsUnmatched t score id
unfolding classify_signal_b
classify_no_match score none t e = inl refl
classify_no_match score (some id) t e = inr (ground arith)

-- What each action promises of the score, of the id and of the confidence.
abbrev InBand : Thresholds → Bool → ℕ × Option Text → ResolutionAction → Option Text → ℕ → Type 0
InBand t has_driver (score, candidate) action_auto_apply id confidence =
    (auto_threshold t ≤ score) × (id ≡ known_id candidate) × ¬ (id ≡ none) × (confidence ≡ score)
InBand t has_driver (score, candidate) action_review id confidence =
    InReview t score
    × (has_driver ≡ false)
    × (id ≡ known_id candidate)
    × ¬ (id ≡ none)
    × (confidence ≡ score)
InBand t has_driver (score, candidate) action_new_entity id confidence =
    IsUnmatched t score candidate × (id ≡ none) × (confidence ≡ 0)
InBand t has_driver best action_unresolved id confidence = ⊥

-- The resolution by the best score.
abbrev IsScored : Thresholds → Bool → ℕ × Option Text → Attempt Resolved → Type 0
IsScored t has_driver best (returned r) =
    InBand t has_driver best r.action r.cdm_entity_id r.confidence
IsScored t has_driver (score, candidate) type_error =
    InReview t score × (has_driver ≡ true) × ¬ (known_id candidate ≡ none)

abbrev IsExact : Text → Attempt Resolved → Type 0
IsExact id (returned r) =
    (r.cdm_entity_id ≡ some id) × (r.confidence ≡ 10000) × (r.action ≡ action_auto_apply)
IsExact id type_error = ⊥

-- By the id of the fast path, else by that of signal A, else by the best score.
abbrev pub IsBanded :
    Thresholds → Bool → Option Text → Option Text → ℕ × Option Text → Attempt Resolved → Type 0
IsBanded t has_driver (some id) signal_a best o = IsExact id o
IsBanded t has_driver none (some id) best o = IsExact id o
IsBanded t has_driver none none best o = IsScored t has_driver best o

some-ne_none : (id : Text) → ¬ (some id ≡ none)
some-ne_none id e = cc

in_review-IsScored :
    (t : Thresholds) (has_driver : Bool) (score c : ℕ) (id : Text)
    → InReview t score
    → IsScored t has_driver
        (score, some (c ∷ id))
        (in_review score (c ∷ id) has_driver (auto_threshold t))
unfolding in_review
in_review-IsScored t true score c id h = (h, refl, some-ne_none (c ∷ id))
in_review-IsScored t false score c id h = elim (Bool-cases (leb (auto_threshold t) (score + 0))) [
  | inl e ↦ absurd (ground (arith, e))
  | inr e ↦ rw e (h, refl, refl, some-ne_none (c ∷ id), refl)
]

by_verdict-IsScored :
    (t : Thresholds) (has_driver : Bool) (score : ℕ) (id : Option Text) (v : Verdict)
    → classify_signal_b score id t ≡ v
    → IsScored t has_driver (score, id) (by_verdict v score id has_driver (auto_threshold t))
unfolding by_verdict
by_verdict-IsScored t has_driver score none auto_apply e = (inl refl, refl, refl)
by_verdict-IsScored t has_driver score none review e = (inl refl, refl, refl)
by_verdict-IsScored t has_driver score none no_match e = (inl refl, refl, refl)
by_verdict-IsScored t has_driver score (some []) auto_apply e = (inl refl, refl, refl)
by_verdict-IsScored t has_driver score (some []) review e = (inl refl, refl, refl)
by_verdict-IsScored t has_driver score (some []) no_match e = (inl refl, refl, refl)
by_verdict-IsScored t has_driver score (some (c ∷ id)) auto_apply e =
    (classify_auto_apply score (some (c ∷ id)) t e, refl, some-ne_none (c ∷ id), refl)
by_verdict-IsScored t has_driver score (some (c ∷ id)) review e =
    in_review-IsScored t has_driver score c id (classify_review score (some (c ∷ id)) t e)
by_verdict-IsScored t has_driver score (some (c ∷ id)) no_match e =
    (classify_no_match score (some (c ∷ id)) t e, refl, refl)

module _ (sha256 : Digest) (er_index : ErIndex) (tenant_id cdm_entity_type : Text)
    (fields : Dict Field) (score_pair : Text → ℕ) (candidates : List Text) (has_driver : Bool) where
  abbrev thresholds : Thresholds
  thresholds = er_index.thresholds tenant_id cdm_entity_type

  abbrev found_by_signal_a : Option Text
  found_by_signal_a = known_id (run_signal_a sha256 er_index tenant_id cdm_entity_type fields)

  by_score-IsScored :
      (best : ℕ × Option Text)
      → IsScored thresholds has_driver best (
          by_score sha256 er_index tenant_id cdm_entity_type fields score_pair candidates has_driver
            best)
  unfolding by_score
  by_score-IsScored (score, id) =
      by_verdict-IsScored thresholds has_driver score id (classify_signal_b score id thresholds)
        refl

  signals-IsBanded :
      IsBanded thresholds has_driver none found_by_signal_a (run_signal_b score_pair candidates) (
        resolve_signals sha256 er_index tenant_id cdm_entity_type fields score_pair candidates
          has_driver none)
  unfolding resolve_signals
  signals-IsBanded = elim (Option-cases found_by_signal_a) [
    | inl e ↦ rw e (by_score-IsScored (run_signal_b score_pair candidates))
    | inr (id, e) ↦ rw e (refl, refl, refl)
  ]

  -- A record gets the id of the fast path, else that of signal A, at full confidence. Else it goes
  -- by the best candidate: applied at once where its score reaches the threshold; in the band
  -- between the lower bound and the threshold sent to review, with its score, without a graph
  -- driver, and refused by a TypeError with one; a new entity, without an id and with confidence 0,
  -- where there is no candidate, no score, or one below both bounds.
  pub resolve_signals-IsBanded :
      (fast_path_id : Option Text)
      → IsBanded thresholds has_driver
          (known_id fast_path_id)
          found_by_signal_a
          (run_signal_b score_pair candidates)
          (resolve_signals sha256 er_index tenant_id cdm_entity_type fields score_pair candidates
            has_driver fast_path_id)
  unfolding resolve_signals
  resolve_signals-IsBanded (some (c ∷ id)) = (refl, refl, refl)
  resolve_signals-IsBanded none = signals-IsBanded
  resolve_signals-IsBanded (some []) = signals-IsBanded
