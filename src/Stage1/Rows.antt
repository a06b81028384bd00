-- ===== src/Stage1/Rows.antt =====
-- `_normalise_row` of transform/stage1_normalise.py: one raw record to its normalised row. The JSON
-- columns are the dictionaries that they hold.
pub mod Images
use nexus_spark_lib.Base.{
  Text, ℕ, Bool, true, false, Option, none, some, List, [], ◌∷◌, ◌++◌, codes, if◌then◌else◌,
  text_eq, or_text, or_default, Dict, length, ◌==◌,
}
use nexus_spark_lib.Stage3.Context.{Scalar}
use nexus_spark_lib.Hashing.{Digest}
use nexus_spark_lib.Stage1.Values.{Python}
use nexus_spark_lib.Stage1.Fields.{
  FieldMap, FxConvert, NormalisedEntry, Item, Selected, normalise_payload,
  compute_changed_canonical_attributes,
}
use nexus_spark_lib.Stage1.Blocking.{BlockingRules, compute_blocking_key}

-- A row of the reader; a missing text is "", a missing payload or time `none`. A time is a text whose
-- order is the order of time.
pub record RawRecord : Type 0 where
  pub tenant_id : Text
  pub connector_id : Text
  pub source_system : Text
  pub source_table : Text
  pub source_record_id : Text
  pub source_op : Text
  pub source_ts : Option Text
  pub after_payload : Option (List Item)
  pub before_payload : Option (List Item)

-- The first of the connector and the source system, if it is not empty, for which a lookup finds
-- something.
abbrev pub try_key {ℓ} : {A : Type ℓ} → (Text → Option A) → Text → Option A
try_key find [] = none
try_key find (c ∷ key) = find (c ∷ key)

abbrev pub first_of {ℓ} : {A : Type ℓ} → Option A → Option A → Option A
first_of none other = other
first_of (some x) other = some x

unfoldable pub first_found {ℓ} : {A : Type ℓ} → (Text → Option A) → Text → Text → Option A
first_found find connector_id source_system =
    first_of (try_key find connector_id) (try_key find source_system)

-- `mapping.get_field_map`, by tenant, key and table; `none` is an empty map or an exception.
abbrev pub FieldMaps : Type 0
FieldMaps = Text → Text → Text → Option FieldMap

abbrev no_fields : FieldMap
no_fields = record { attributes = []; metas = [] }

unfoldable pub resolve_field_map : FieldMaps → Text → Text → Text → Text → FieldMap
unfolding first_found
resolve_field_map mapping tenant_id connector_id source_system source_table =
    or_default (first_found (λ key. mapping tenant_id key source_table) connector_id source_system)
      no_fields

-- round(mapped / total, 4), as the two numbers, and 1.0 for an empty payload.
pub data DqScore : Type 0 where
  complete : DqScore
  share : ℕ → ℕ → DqScore

unfoldable pub dq_score : ℕ → ℕ → DqScore
dq_score mapped total = if total == 0 then complete else share mapped total

pub record NormalisedRow : Type 0 where
  pub normalised : Dict NormalisedEntry
  pub source_extras : Dict (Option Scalar)
  pub dq : DqScore
  pub dedup_key : Text
  pub blocking_key : Text
  pub changed_canonical_attributes : List Text

-- DELETE takes the image before, every other operation the one after.
unfoldable pub payload_of : RawRecord → List Item
payload_of r =
    if text_eq (or_text r.source_op (codes "INSERT")) (codes "DELETE")
    then or_default r.before_payload []
    else or_default r.after_payload []

module _ (py : Python) (sha256 : Digest) (mapping : FieldMaps) (fx_rates : Option FxConvert)
    (rules : BlockingRules) (cdm_entity_type : Text) where
  abbrev pub normalised_of : RawRecord → List Item → Selected
  normalised_of r payload =
      normalise_payload py fx_rates r.source_ts
        (resolve_field_map mapping r.tenant_id r.connector_id r.source_system r.source_table)
        payload

  abbrev pub changed_of : RawRecord → Dict NormalisedEntry → Dict NormalisedEntry → List Text
  changed_of r before_fields fields =
      if text_eq (or_text r.source_op (codes "INSERT")) (codes "UPDATE")
      then compute_changed_canonical_attributes py before_fields fields
      else []

  -- The row of what was selected from a payload of a length, with the fields before.
  unfoldable pub row_of : RawRecord → Selected → ℕ → Dict NormalisedEntry → NormalisedRow
  unfolding compute_changed_canonical_attributes compute_blocking_key dq_score
  row_of r selected total before_fields = record {
    normalised = selected.fields;
    source_extras = selected.extras;
    dq = dq_score (length selected.fields) total;
    dedup_key =
        r.tenant_id ++ (codes "|" ++ (cdm_entity_type ++ (codes "|" ++ r.source_record_id)));
    blocking_key =
        compute_blocking_key sha256 r.tenant_id cdm_entity_type selected.fields rules
          r.source_record_id;
    changed_canonical_attributes = changed_of r before_fields selected.fields;
  }

  unfoldable pub normalise_row : RawRecord → NormalisedRow
  unfolding row_of normalise_payload resolve_field_map payload_of
  normalise_row r =
      row_of r (normalised_of r (payload_of r)) (length (payload_of r))
        (normalised_of r (or_default r.before_payload [])).fields
