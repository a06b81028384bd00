-- ===== src/Stage2/Signals.antt =====
-- The signals of nexus_spark_lib/transform/stage2_resolve/signals, and er_outcomes.py. A score is a
-- number of ten-thousandths; the index is a snapshot from lookup keys to ids, with the columns and
-- thresholds of each type.
pub mod Best
use nexus_spark_lib.Base.{
  non_empty, Text, ℕ, Bool, true, false, not, ◌&&◌, ◌||◌, Option, none, some, List, [], ◌∷◌, ◌++◌,
  codes, if◌then◌else◌, leb, ltb, ◌==◌, text_eq, text_ltb, lower, upper, Dict, dict_get, keep,
  sort_by, any, or_default,
}
use nexus_spark_lib.Stage3.Context.{Scalar, text, number, flag, Field, extract_field_value, str}
use nexus_spark_lib.Hashing.{Digest, er_deterministic_lookup_key}

pub record Thresholds : Type 0 where
  pub auto_apply_threshold : Option ℕ
  pub review_lower_bound : Option ℕ
  pub weights : Dict ℕ

pub record ErIndex : Type 0 where
  pub snapshot : Dict Text
  pub deterministic_columns : Text → Text → List Text
  pub thresholds : Text → Text → Thresholds

-- An id that is there and is not empty.
abbrev pub known_id : Option Text → Option Text
known_id none = none
known_id (some []) = none
known_id (some (c ∷ s)) = some (c ∷ s)

unfoldable pub lookup_prior_cdm_entity_id : ErIndex → List Text → Option Text
lookup_prior_cdm_entity_id er_index [] = none
lookup_prior_cdm_entity_id er_index (key ∷ lookup_keys) =
    let rest = lookup_prior_cdm_entity_id er_index lookup_keys in
    elim (known_id (dict_get key er_index.snapshot)) [ some known ↦ some known | none ↦ rest ]

-- `not value`
abbrev pub falsy : Scalar → Bool
falsy (text []) = true
falsy (number s) = text_eq s (codes "0") || (text_eq s (codes "0.0") || text_eq s (codes "-0.0"))
falsy (flag false) = true
falsy _ = false

abbrev pub if_truthy : Option Scalar → Option Scalar
if_truthy none = none
if_truthy (some value) = if falsy value then none else some value

abbrev pub raw_value : Option Field → Option Scalar
raw_value none = none
raw_value (some raw) = if_truthy (extract_field_value raw)

abbrev pub legacy_lookup_key : Text → Text → Text → Text → Text
legacy_lookup_key tenant_id cdm_entity_type column value =
    tenant_id ++ (codes "|" ++ (cdm_entity_type ++ (codes "|" ++ (column ++ (codes ":" ++ value)))))

abbrev pub add_match : Option Text → List Text → List Text
add_match none matches = matches
add_match (some id) matches = if any (text_eq id) matches then matches else matches ++ id ∷ []

-- pick_signal_a_match: the least of the ids.
abbrev pub first_text : List Text → Option Text
first_text [] = none
first_text (t ∷ ts) = some t

unfoldable pub pick_signal_a_match : List Text → Option Text
pick_signal_a_match matches = first_text (sort_by text_ltb (keep non_empty matches))

module _ (sha256 : Digest) (er_index : ErIndex) (tenant_id cdm_entity_type : Text) where
  abbrev pub match_value : Text → Option Scalar → List Text → List Text
  match_value column none matches = matches
  match_value column (some value) matches =
      let hashed =
        er_deterministic_lookup_key tenant_id cdm_entity_type column (sha256 (str value)) in
      let legacy = legacy_lookup_key tenant_id cdm_entity_type column (str value) in
      add_match (known_id (dict_get legacy er_index.snapshot))
        (add_match (known_id (dict_get hashed er_index.snapshot)) matches)

  unfoldable pub collect_matches : Dict Field → List Text → List Text → List Text
  unfolding extract_field_value er_deterministic_lookup_key
  collect_matches fields [] matches = matches
  collect_matches fields (column ∷ columns) matches =
      collect_matches fields columns
        (match_value column (raw_value (dict_get column fields)) matches)

  unfoldable pub run_signal_a : Dict Field → Option Text
  unfolding collect_matches pick_signal_a_match
  run_signal_a fields =
      pick_signal_a_match
        (collect_matches fields (er_index.deterministic_columns tenant_id cdm_entity_type) [])

-- The loop of run_signal_b over the candidates of the blocking, with the best so far.
abbrev better : ℕ → Text → ℕ × Option Text → ℕ × Option Text
better score candidate_id (best_score, best_candidate) =
    if ltb best_score score then (score, some candidate_id) else (best_score, best_candidate)

unfoldable pub best_of : (Text → ℕ) → List Text → ℕ × Option Text → ℕ × Option Text
best_of score_pair [] best = best
best_of score_pair (candidate_id ∷ candidates) best =
    best_of score_pair candidates (better (score_pair candidate_id) candidate_id best)

unfoldable pub run_signal_b : (Text → ℕ) → List Text → ℕ × Option Text
unfolding best_of
run_signal_b score_pair candidates = best_of score_pair candidates (0, none)

pub data Verdict : Type 0 where
  auto_apply review no_match : Verdict

abbrev pub auto_threshold : Thresholds → ℕ
auto_threshold cfg = or_default cfg.auto_apply_threshold 9200

abbrev pub review_bound : Thresholds → ℕ
review_bound cfg = or_default cfg.review_lower_bound 7500

unfoldable pub classify_signal_b : ℕ → Option Text → Thresholds → Verdict
classify_signal_b score none cfg = no_match
classify_signal_b score (some candidate_id) cfg =
    if leb score 0
    then no_match
    else if leb (auto_threshold cfg) score
    then auto_apply
    else if leb (review_bound cfg) score
    then review
    else no_match
