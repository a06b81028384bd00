-- ===== src/Stage2/Rows.antt =====
-- The UDF of `resolve` in transform/stage2_resolve/__init__.py, which resolves one row, and the
-- columns of the entity store that follow it. Blocking, the score of a pair and the lift of signal C
-- are parameters.
pub mod Placed
use nexus_spark_lib.Base.{
  Text, ℕ, zero, suc, ◌+◌, Bool, true, false, not, ◌&&◌, ◌||◌, Option, none, some, List, [], ◌∷◌,
  ◌++◌, codes, if◌then◌else◌, leb, ltb, ◌==◌, text_eq, lower, upper, strip, or_text, non_empty,
  Dict, or_default,
}
use nexus_spark_lib.Models.ErTypes.{method_deterministic, method_probabilistic, method_graph}
use nexus_spark_lib.Models.EntityStore.{EntityStoreState}
use nexus_spark_lib.Stage3.Context.{Field, JsonAttributes}
use nexus_spark_lib.Hashing.{
  Digest, er_source_lookup_key, er_legacy_source_lookup_key, blocking_key_hash,
}
use nexus_spark_lib.Stage2.Signals.{
  ErIndex, Thresholds, known_id, lookup_prior_cdm_entity_id, run_signal_a, run_signal_b,
}
use nexus_spark_lib.Stage2.Outcomes.{update_requires_reresolution, infer_gr_operation}

-- The lift of signal C for a candidate; without a graph driver there is none.
abbrev lift_of : Option (Text → ℕ) → Text → ℕ
lift_of none candidate = 0
lift_of (some run_signal_c) candidate = run_signal_c candidate

-- The columns that the UDF reads; a missing text is "", but for the blocking key, whose None a WARM
-- row hashes as "None".
pub record ResolveRow : Type 0 where
  pub tenant_id : Text
  pub cdm_entity_type : Text
  pub connector_id : Text
  pub source_system : Text
  pub source_table : Text
  pub source_record_id : Text
  pub source_op : Text
  pub fields : Dict Field
  pub changed : JsonAttributes
  pub materialization_level : Text
  pub blocking_key : Option Text

pub record RowResult : Type 0 where
  pub cdm_entity_id : Text
  pub resolution_method : Text
  pub confidence : ℕ
  pub is_provisional : Bool
  pub review_candidate_id : Option Text
  pub signal_b_score : ℕ
  pub signal_c_lift : ℕ
  pub prior_cdm_entity_id : Option Text
  pub er_gr_operation : Text

unfoldable pub generate_cdm_entity_id : Digest → Text → Text → Text → Text
unfolding blocking_key_hash
generate_cdm_entity_id sha256 tenant_id cdm_entity_type blocking_key =
    blocking_key_hash sha256 tenant_id cdm_entity_type blocking_key

unfoldable pub resolved_blocking_key : ResolveRow → Text
unfolding strip
resolved_blocking_key r =
    or_text (strip (or_default r.blocking_key []))
      (r.cdm_entity_type ++ (codes "|" ++ r.source_record_id))

unfoldable pub lookup_keys : ResolveRow → List Text
unfolding er_source_lookup_key er_legacy_source_lookup_key
lookup_keys r =
    er_source_lookup_key r.tenant_id (or_text r.connector_id r.source_system) r.source_table
      r.source_record_id
    ∷ (if non_empty r.source_system
        then er_legacy_source_lookup_key r.tenant_id r.source_system r.source_record_id ∷ []
        else [])

-- `_get_threshold_config`: a threshold that is missing or not positive is the default.
abbrev positive_or : Option ℕ → ℕ → ℕ
positive_or none d = d
positive_or (some zero) d = d
positive_or (some (suc n)) d = suc n

unfoldable pub auto_apply_of : Thresholds → ℕ
auto_apply_of cfg = positive_or cfg.auto_apply_threshold 9200

unfoldable pub review_lower_of : Thresholds → ℕ
review_lower_of cfg = positive_or cfg.review_lower_bound 7500

-- A result by an exact method.
abbrev pub exact_row : ResolveRow → Text → Text → Option Text → Text → RowResult
exact_row r id method prior op = record {
  cdm_entity_id = id;
  resolution_method = method;
  confidence = 10000;
  is_provisional = false;
  review_candidate_id = none;
  signal_b_score = 0;
  signal_c_lift = 0;
  prior_cdm_entity_id = prior;
  er_gr_operation = op;
}

abbrev pub inferred_row : ResolveRow → Text → Text → Option Text → RowResult
inferred_row r id method prior =
    exact_row r id method prior (infer_gr_operation prior id r.source_op)

module _ (sha256 : Digest) (er_index : ErIndex) (score_pair : Text → ℕ) (candidates : List Text)
    (run_signal_c : Option (Text → ℕ)) where
  abbrev pub thresholds_of : ResolveRow → Thresholds
  thresholds_of r = er_index.thresholds r.tenant_id r.cdm_entity_type

  abbrev pub generated_id : ResolveRow → Text
  generated_id r =
      generate_cdm_entity_id sha256 r.tenant_id r.cdm_entity_type (resolved_blocking_key r)

  abbrev pub new_row : ResolveRow → Option Text → ℕ → ℕ → RowResult
  new_row r prior score lift = record {
    cdm_entity_id = generated_id r;
    resolution_method = codes "new_entity";
    confidence = 10000;
    is_provisional = false;
    review_candidate_id = none;
    signal_b_score = score;
    signal_c_lift = lift;
    prior_cdm_entity_id = prior;
    er_gr_operation = infer_gr_operation prior (generated_id r) r.source_op;
  }

  abbrev pub merged_row : ResolveRow → Option Text → ℕ → ℕ → Text → RowResult
  merged_row r prior score lift candidate = record {
    cdm_entity_id = candidate;
    resolution_method = if ltb 0 lift then method_graph else method_probabilistic;
    confidence = score + lift;
    is_provisional = false;
    review_candidate_id = none;
    signal_b_score = score;
    signal_c_lift = lift;
    prior_cdm_entity_id = prior;
    er_gr_operation = infer_gr_operation prior candidate r.source_op;
  }

  abbrev pub review_row : ResolveRow → Option Text → ℕ → ℕ → Text → RowResult
  review_row r prior score lift candidate = record {
    cdm_entity_id = generated_id r;
    resolution_method = codes "review_band";
    confidence = score + lift;
    is_provisional = true;
    review_candidate_id = some candidate;
    signal_b_score = score;
    signal_c_lift = lift;
    prior_cdm_entity_id = prior;
    er_gr_operation = infer_gr_operation prior (generated_id r) r.source_op;
  }

  -- Signal C is asked in the review band alone.
  unfoldable pub signal_c_lift_of : ResolveRow → ℕ → Text → ℕ
  unfolding auto_apply_of review_lower_of
  signal_c_lift_of r score candidate =
      if leb (review_lower_of (thresholds_of r)) score
        && ltb score (auto_apply_of (thresholds_of r))
      then lift_of run_signal_c candidate
      else 0

  unfoldable pub by_final_score : ResolveRow → Option Text → ℕ → ℕ → Text → RowResult
  unfolding auto_apply_of review_lower_of infer_gr_operation generate_cdm_entity_id
      resolved_blocking_key
  by_final_score r prior score lift candidate =
      if leb (auto_apply_of (thresholds_of r)) (score + lift)
      then merged_row r prior score lift candidate
      else if leb (review_lower_of (thresholds_of r)) (score + lift)
      then review_row r prior score lift candidate
      else new_row r prior score lift

  unfoldable pub by_signal_b : ResolveRow → Option Text → ℕ → Option Text → RowResult
  unfolding by_final_score signal_c_lift_of
  by_signal_b r prior score none = new_row r prior score 0
  by_signal_b r prior score (some candidate) =
      by_final_score r prior score (signal_c_lift_of r score candidate) candidate

  -- The part after signal A: a WARM row is a new entity, by the blocking key as it is.
  unfoldable pub after_signal_a : ResolveRow → Option Text → Text → RowResult
  unfolding by_signal_b run_signal_b generate_cdm_entity_id infer_gr_operation
  after_signal_a r prior level =
      if text_eq level (codes "warm")
      then inferred_row r
          (generate_cdm_entity_id sha256 r.tenant_id r.cdm_entity_type
            (or_default r.blocking_key (codes "None")))
          (codes "warm_new") prior
      else (let best = run_signal_b score_pair candidates in
          by_signal_b r prior best.0 (known_id best.1))

  abbrev pub by_signal_a : ResolveRow → Option Text → Text → Option Text → RowResult
  by_signal_a r prior level (some id) = inferred_row r id method_deterministic prior
  by_signal_a r prior level none = after_signal_a r prior level

  unfoldable pub by_signals : ResolveRow → Option Text → Text → RowResult
  unfolding after_signal_a run_signal_a infer_gr_operation
  by_signals r prior level =
      by_signal_a r prior level
        (known_id (run_signal_a sha256 er_index r.tenant_id r.cdm_entity_type r.fields))

  abbrev pub reresolves : ResolveRow → Bool
  reresolves r =
      update_requires_reresolution er_index r.tenant_id r.cdm_entity_type r.source_op r.changed

  -- The source is indexed: a RELEVEL and every record that need not be resolved again keep the id.
  unfoldable pub indexed : ResolveRow → Text → Text → RowResult
  unfolding by_signals infer_gr_operation update_requires_reresolution upper
  indexed r known level =
      if text_eq (upper r.source_op) (codes "RELEVEL")
      then exact_row r known (codes "relevel_skip") (some known) (codes "RELEVEL")
      else if reresolves r
      then by_signals r (some known) level
      else inferred_row r known (codes "fast_path") (some known)

  abbrev pub by_prior : ResolveRow → Text → Option Text → RowResult
  by_prior r level none = by_signals r none level
  by_prior r level (some known) = indexed r known level

  unfoldable pub resolve_row : ResolveRow → RowResult
  unfolding indexed by_signals lookup_prior_cdm_entity_id lookup_keys generate_cdm_entity_id
      resolved_blocking_key infer_gr_operation lower
  resolve_row r =
      let level = lower (or_text r.materialization_level (codes "warm")) in
      if text_eq level (codes "cold")
      then inferred_row r (generated_id r) (codes "cold_skip") none
      else by_prior r level (lookup_prior_cdm_entity_id er_index (lookup_keys r))
