-- ===== src/Stage2/Broadcast.antt =====
-- The index that a broadcast carries: nexus_spark_lib/models/er_resolve_index.py, its loader
-- db/er_broadcast_loader.py, `normalize_phone` of util/text_similarity.py, and the blocking by
-- telephone of transform/stage2_resolve/lsh/blocking.py, which serves an index without MinHash.
pub mod Found
use nexus_spark_lib.Base.{
  Text, ℕ, Bool, true, false, ◌&&◌, Option, none, some, List, [], ◌∷◌, ◌++◌, codes, any, keep,
  if◌then◌else◌, leb, text_eq, starts_with, in_texts, Dict, dict_get, dict_set, or_default,
}
use nexus_spark_lib.Stage3.Context.{Scalar, Field, str}
use nexus_spark_lib.Stage2.Signals.{ErIndex, Thresholds, raw_value, legacy_lookup_key}

-- A dictionary whose keys are pairs of a tenant and a type.
abbrev pub PairDict : Type 0 → Type 0
PairDict V = List ((Text × Text) × V)

abbrev pub same_pair : Text × Text → Text × Text → Bool
same_pair a b = text_eq a.0 b.0 && text_eq a.1 b.1

unfoldable pub pair_get : {V : Type 0} → Text × Text → PairDict V → Option V
pair_get key [] = none
pair_get key ((k, v) ∷ d) = if same_pair k key then some v else pair_get key d

unfoldable pub pair_set : {V : Type 0} → Text × Text → V → PairDict V → PairDict V
pair_set key v [] = (key, v) ∷ []
pair_set key v ((k, w) ∷ d) = if same_pair k key then (k, v) ∷ d else (k, w) ∷ pair_set key v d

pub record ErResolveIndex : Type 0 where
  pub thresholds : Text → Text → Thresholds
  pub snapshot : Dict Text
  pub deterministic_columns : PairDict (List Text)
  pub entities : PairDict (Dict (Dict Field))
  pub phone_index : Dict (List Text)

unfoldable pub register_deterministic_columns :
    Text → Text → List Text → ErResolveIndex → ErResolveIndex
unfolding pair_set
register_deterministic_columns tenant_id cdm_entity_type columns index = record index {
  deterministic_columns = pair_set (tenant_id, cdm_entity_type) columns index.deterministic_columns;
}

abbrev pub columns_of : Text → Text → ErResolveIndex → List Text
columns_of tenant_id cdm_entity_type index =
    or_default (pair_get (tenant_id, cdm_entity_type) index.deterministic_columns) []

abbrev pub put_value : Text → Text → Text → Text → Option Scalar → Dict Text → Dict Text
put_value tenant_id cdm_entity_type id column none snapshot = snapshot
put_value tenant_id cdm_entity_type id column (some value) snapshot =
    dict_set (legacy_lookup_key tenant_id cdm_entity_type column (str value)) id snapshot

-- The loop over the deterministic columns.
unfoldable pub put_columns : Text → Text → Text → Dict Field → List Text → Dict Text → Dict Text
unfolding dict_get dict_set
put_columns tenant_id cdm_entity_type id fields [] snapshot = snapshot
put_columns tenant_id cdm_entity_type id fields (column ∷ columns) snapshot =
    put_columns tenant_id cdm_entity_type id fields columns
      (put_value tenant_id cdm_entity_type id column (raw_value (dict_get column fields)) snapshot)

unfoldable pub put_entity : Text → Text → Text → Dict Field → ErResolveIndex → ErResolveIndex
unfolding put_columns pair_get pair_set
put_entity tenant_id cdm_entity_type id fields index =
    let bucket = or_default (pair_get (tenant_id, cdm_entity_type) index.entities) [] in
    record index {
      entities = pair_set (tenant_id, cdm_entity_type) (dict_set id fields bucket) index.entities;
      snapshot =
          put_columns tenant_id cdm_entity_type id fields
            (columns_of tenant_id cdm_entity_type index) index.snapshot;
    }

unfoldable pub get_fields : Text → PairDict (Dict (Dict Field)) → Option (Dict Field)
unfolding dict_get
get_fields id [] = none
get_fields id ((key, bucket) ∷ buckets) =
    let rest = get_fields id buckets in
    elim (dict_get id bucket) [ some fields ↦ some fields | none ↦ rest ]

abbrev is_digit : ℕ → Bool
is_digit c = leb b'0' c && leb c b'9'

abbrev without_prefix : Text → Text
without_prefix (a ∷ b ∷ digits) =
    if starts_with (codes "00") (a ∷ b ∷ digits) then digits else a ∷ b ∷ digits
without_prefix digits = digits

unfoldable pub normalize_phone : Text → Text
unfolding starts_with
normalize_phone value = without_prefix (keep is_digit value)

-- `none` is the empty key.
abbrev key_of_digits : Text → Text → Text → Option Text
key_of_digits tenant_id cdm_entity_type [] = none
key_of_digits tenant_id cdm_entity_type (d ∷ digits) =
    some (tenant_id ++ (codes "|" ++ (cdm_entity_type ++ (codes "|phone:" ++ (d ∷ digits)))))

unfoldable pub phone_blocking_key : Text → Text → Text → Option Text
unfolding normalize_phone
phone_blocking_key tenant_id cdm_entity_type phone =
    key_of_digits tenant_id cdm_entity_type (normalize_phone phone)

abbrev pub phone_key : Text → Text → Option Scalar → Option Text
phone_key tenant_id cdm_entity_type none = none
phone_key tenant_id cdm_entity_type (some phone) =
    phone_blocking_key tenant_id cdm_entity_type (str phone)

abbrev pub bucket_at : Text → Dict (List Text) → List Text
bucket_at key phone_index = or_default (dict_get key phone_index) []

abbrev pub put_phone : Text → Option Text → Dict (List Text) → Dict (List Text)
put_phone id none phone_index = phone_index
put_phone id (some key) phone_index =
    let bucket = bucket_at key phone_index in
    dict_set key (if in_texts id bucket then bucket else bucket ++ id ∷ []) phone_index

abbrev pub default_deterministic : List Text
default_deterministic = codes "tax_id" ∷ codes "domain" ∷ codes "duns_number" ∷ []

abbrev columns_or_default : List Text → List Text
columns_or_default [] = default_deterministic
columns_or_default (column ∷ columns) = column ∷ columns

abbrev with_columns : Option (List Text) → Text → Text → List Text → ErResolveIndex → ErResolveIndex
with_columns (some known) tenant_id cdm_entity_type columns index = index
with_columns none tenant_id cdm_entity_type columns index =
    register_deterministic_columns tenant_id cdm_entity_type (columns_or_default columns) index

abbrev pub phones_of : Text → Text → Text → Dict Field → Dict (List Text) → Dict (List Text)
phones_of tenant_id cdm_entity_type id fields phone_index =
    put_phone id
      (phone_key tenant_id cdm_entity_type (raw_value (dict_get (codes "phone_number") fields)))
      (put_phone id
        (phone_key tenant_id cdm_entity_type (raw_value (dict_get (codes "phone") fields)))
        phone_index)

unfoldable pub register_entity_fields :
    Text → Text → Text → Dict Field → List Text → ErResolveIndex → ErResolveIndex
unfolding put_entity register_deterministic_columns pair_get phone_blocking_key dict_get dict_set
    in_texts
register_entity_fields tenant_id cdm_entity_type id fields columns index =
    let registered =
      with_columns (pair_get (tenant_id, cdm_entity_type) index.deterministic_columns) tenant_id
        cdm_entity_type columns index in
    let placed = put_entity tenant_id cdm_entity_type id fields registered in
    record placed { phone_index = phones_of tenant_id cdm_entity_type id fields placed.phone_index }

-- fields.get("phone", fields.get("phone_number", {}))
abbrev pub get_or : Option Field → Option Field → Option Field
get_or none default = default
get_or (some field) default = some field

abbrev pub phone_field : Dict Field → Option Field
phone_field fields =
    get_or (dict_get (codes "phone") fields) (dict_get (codes "phone_number") fields)

abbrev pub candidates_at : Option Text → Dict (List Text) → List Text
candidates_at none phone_index = []
candidates_at (some key) phone_index = bucket_at key phone_index

-- `_phone_blocking_candidates`; an empty key is not in the index.
unfoldable pub phone_blocking_candidates : Text → Text → Dict Field → ErResolveIndex → List Text
unfolding phone_blocking_key dict_get
phone_blocking_candidates tenant_id cdm_entity_type fields index =
    candidates_at (phone_key tenant_id cdm_entity_type (raw_value (phone_field fields)))
      index.phone_index

-- What signal A reads of the index.
abbrev pub signal_index : ErResolveIndex → ErIndex
signal_index index = record {
  snapshot = index.snapshot;
  deterministic_columns = λ tenant_id cdm_entity_type. columns_of tenant_id cdm_entity_type index;
  thresholds = index.thresholds;
}
