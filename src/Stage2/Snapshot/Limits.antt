-- ===== src/Stage2/Snapshot/Limits.antt =====
-- The loaders of er_thresholds in nexus_spark_lib/db/survivorship_rules.py: `load_er_thresholds` of
-- one tenant, and `load_er_thresholds_broadcast` of all. Weights are a dictionary or NULL.
use nexus_spark_lib.Base.{
  Text, ℕ, ◌≡◌, refl, Bool, Option, none, some, List, [], ◌∷◌, arith, keep, if◌then◌else◌, text_eq,
  text_eq_iff, Dict, dict_get, dict_set, dict_get-set, Bool-cases, inl, inr,
}
use nexus_spark_lib.Stage2.Signals.{Thresholds}
use nexus_spark_lib.Stage2.Broadcast.{PairDict, same_pair, pair_get, pair_set}
use nexus_spark_lib.Stage2.Snapshot.{ThresholdRow}

abbrev coerce_weights : Option (Dict ℕ) → Dict ℕ
coerce_weights none = []
coerce_weights (some raw) = raw

abbrev pub limits_of : ThresholdRow → Thresholds
limits_of row = record {
  auto_apply_threshold = some row.auto_apply_threshold;
  review_lower_bound = some row.review_lower_bound;
  weights = coerce_weights row.weights;
}

unfoldable pub put_limits : List ThresholdRow → Dict Thresholds → Dict Thresholds
put_limits [] limits = limits
put_limits (row ∷ rows) limits =
    put_limits rows (dict_set row.cdm_entity_type (limits_of row) limits)

abbrev is_of : Text → ThresholdRow → Bool
is_of tenant_id row = text_eq row.tenant_id tenant_id

unfoldable pub load_er_thresholds : Text → List ThresholdRow → Dict Thresholds
unfolding put_limits keep dict_set
load_er_thresholds tenant_id rows = put_limits (keep (is_of tenant_id) rows) []

unfoldable pub put_pairs : List ThresholdRow → PairDict Thresholds → PairDict Thresholds
put_pairs [] limits = limits
put_pairs (row ∷ rows) limits =
    put_pairs rows (pair_set (row.tenant_id, row.cdm_entity_type) (limits_of row) limits)

unfoldable pub load_er_thresholds_broadcast : List ThresholdRow → PairDict Thresholds
unfolding put_pairs pair_set
load_er_thresholds_broadcast rows = put_pairs rows []

pair_get-set :
    (j k : Text × Text) (v : Thresholds) (d : PairDict Thresholds)
    → pair_get k (pair_set j v d) ≡ (if same_pair j k then some v else pair_get k d)
unfolding pair_get pair_set
pair_get-set j k v [] = refl
pair_get-set j k v ((i, w) ∷ d) = ground (
  arith,
  text_eq_iff i.0 j.0,
  text_eq_iff i.1 j.1,
  text_eq_iff i.0 k.0,
  text_eq_iff i.1 k.1,
  text_eq_iff j.0 k.0,
  text_eq_iff j.1 k.1,
  pair_get-set j k v d,
)

module _ (t y : Text) where
  put_pairs-limits :
      (rows : List ThresholdRow) (pairs : PairDict Thresholds) (limits : Dict Thresholds)
      → pair_get (t, y) pairs ≡ dict_get y limits
      → pair_get (t, y) (put_pairs rows pairs)
        ≡ dict_get y (put_limits (keep (is_of t) rows) limits)
  unfolding put_pairs put_limits keep
  put_pairs-limits [] pairs limits h = h
  put_pairs-limits (row ∷ rows) pairs limits h =
      let set = pair_get-set (row.tenant_id, row.cdm_entity_type) (t, y) (limits_of row) pairs in
      elim (Bool-cases (is_of t row)) [
        | inl e ↦ rw e (
            put_pairs-limits rows _ _
              (rw (set, dict_get-set row.cdm_entity_type y (limits_of row) limits, e, h) refl))
        | inr e ↦ rw e (put_pairs-limits rows _ limits (rw (set, e) h))
      ]

  -- The two loaders agree on every tenant and type.
  pub load_er_thresholds-broadcast :
      (rows : List ThresholdRow)
      → pair_get (t, y) (load_er_thresholds_broadcast rows) ≡ dict_get y (load_er_thresholds t rows)
  unfolding load_er_thresholds_broadcast load_er_thresholds pair_get dict_get
  load_er_thresholds-broadcast rows = put_pairs-limits rows [] [] refl
