-- ===== src/Stage2/ForeignKeys.antt =====
-- nexus_spark_lib/transform/fk_target_resolution.py: the ids of the records that foreign keys name.
-- The JSON of a row is the dictionary that it holds; the index is that of `ErIndexSnapshot`.
pub mod Targets
use nexus_spark_lib.Base.{
  Text, ℕ, Bool, true, false, not, ◌&&◌, ◌||◌, Option, none, some, List, [], ◌∷◌, codes,
  if◌then◌else◌, ◌-◌, ◌==◌, is_space, keep, map, text_eq, lower, strip, ends_with, in_texts,
  non_empty, length, Dict, dict_get, or_default,
}
use nexus_spark_lib.Stage3.Context.{Scalar, text, number, flag, str}
use nexus_spark_lib.Hashing.{take}

abbrev pub target_hints : Dict Text
target_hints =
    (codes "product", codes "product")
    ∷ (codes "party", codes "party")
    ∷ (codes "buyer", codes "party")
    ∷ (codes "customer", codes "party")
    ∷ (codes "vendor", codes "party")
    ∷ (codes "supplier", codes "party")
    ∷ (codes "employee", codes "employee")
    ∷ (codes "transaction", codes "transaction")
    ∷ (codes "order", codes "transaction")
    ∷ (codes "document", codes "document")
    ∷ (codes "interaction", codes "interaction")
    ∷ []

abbrev none_if_empty : Text → Option Text
none_if_empty [] = none
none_if_empty (c ∷ t) = some (c ∷ t)

abbrev drop_last : ℕ → Text → Text
drop_last n s = take (length s - n) s

-- The loop over the suffixes, which ends at the first that fits.
unfoldable pub without_suffix : Text → Text
unfolding ends_with take
without_suffix base =
    if ends_with (codes "_id_ref") base
    then drop_last 7 base
    else if ends_with (codes "_ref") base
    then drop_last 4 base
    else if ends_with (codes "_id") base
    then drop_last 3 base
    else base

abbrev split_at : ℕ → List Text → List Text
split_at c [] = (c ∷ []) ∷ []
split_at c (part ∷ parts) =
    if (c == b'_') || is_space c then [] ∷ part ∷ parts else (c ∷ part) ∷ parts

-- [p for p in re.split(r"[_\s]+", base) if p]
unfoldable pub split_words : Text → List Text
split_words [] = [] ∷ []
split_words (c ∷ s) = split_at c (split_words s)

unfoldable pub hinted_target : List Text → Option Text
unfolding dict_get
hinted_target [] = none
hinted_target (part ∷ parts) =
    let rest = hinted_target parts in
    elim (dict_get part target_hints) [ some hinted ↦ some hinted | none ↦ rest ]

unfoldable pub last_part : List Text → Option Text
last_part [] = none
last_part (part ∷ []) = some part
last_part (part ∷ next ∷ parts) = last_part (next ∷ parts)

abbrev or_last : List Text → Option Text → Option Text
or_last parts none = last_part parts
or_last parts (some hinted) = some hinted

unfoldable pub infer_fk_target_entity_type : Text → Text → Option Text
unfolding without_suffix split_words hinted_target last_part lower strip
infer_fk_target_entity_type attribute_name explicit =
    if non_empty explicit
    then none_if_empty (strip explicit)
    else (let parts =
          keep non_empty (split_words (without_suffix (strip (lower attribute_name)))) in
        or_last parts (hinted_target parts))

-- A key of `_source_records_by_entity`: tenant, type, source system and record id.
pub record RecordKey : Type 0 where
  pub tenant_id : Text
  pub cdm_entity_type : Text
  pub source_system : Text
  pub source_record_id : Text

abbrev pub RecordIndex : Type 0
RecordIndex = List (RecordKey × Text)

abbrev pub key_eq : RecordKey → RecordKey → Bool
key_eq a b =
    text_eq a.tenant_id b.tenant_id
    && (text_eq a.cdm_entity_type b.cdm_entity_type
        && (text_eq a.source_system b.source_system
            && text_eq a.source_record_id b.source_record_id))

-- `find_entity_by_source_record`
unfoldable pub find_entity_by_source_record : RecordKey → RecordIndex → Option Text
find_entity_by_source_record key [] = none
find_entity_by_source_record key ((k, id) ∷ index) =
    if key_eq k key then some id else find_entity_by_source_record key index

-- The test of the fallback: any source system, and the type in any case.
abbrev pub fits : RecordKey → RecordKey → Bool
fits key k =
    text_eq k.tenant_id key.tenant_id
    && (text_eq (lower k.cdm_entity_type) (lower key.cdm_entity_type)
        && text_eq k.source_record_id key.source_record_id)

unfoldable pub scan_index : RecordKey → RecordIndex → Option Text
unfolding lower
scan_index key [] = none
scan_index key ((k, id) ∷ index) = if fits key k then some id else scan_index key index

-- A hit that is not empty, or the scan.
abbrev pub hit_or : Option Text → Option Text → Option Text
hit_or none other = other
hit_or (some []) other = other
hit_or (some (c ∷ id)) other = some (c ∷ id)

unfoldable pub lookup_target : RecordIndex → RecordKey → Option Text
unfolding find_entity_by_source_record scan_index
lookup_target index key =
    if non_empty key.source_record_id
    then hit_or
        (if non_empty key.source_system then find_entity_by_source_record key index else none)
        (scan_index key index)
    else none

-- A field that is a dictionary; `resolved` is `none` where its key is missing, `some none` for None.
pub record FkEntry : Type 0 where
  pub value : Option Scalar
  pub attribute_kind : Text
  pub fk_target_entity_type : Text
  pub resolved : Option (Option Text)

pub data FkField : Type 0 where
  bare : Option Scalar → FkField
  entry : FkEntry → FkField

abbrev named_as_fk : Text → Bool
named_as_fk name =
    ends_with (codes "_id_ref") name
    || (ends_with (codes "_ref") name
        || (ends_with (codes "_id") name && not (text_eq name (codes "cdm_entity_id"))))

-- value is not None and value != ""
abbrev pub filled : Option Scalar → Option Scalar
filled none = none
filled (some (text [])) = none
filled (some value) = some value

unfoldable pub looks_like_fk : Text → FkEntry → Bool
unfolding lower strip ends_with
looks_like_fk attr_name field =
    text_eq (lower (strip field.attribute_kind)) (codes "foreign_key")
    || (non_empty field.fk_target_entity_type || named_as_fk (lower attr_name))

-- A result that Python holds false leaves the key, or makes it an explicit None.
abbrev pub set_resolved : Option Text → FkEntry → FkEntry
set_resolved (some (c ∷ id)) field = record field { resolved = some (some (c ∷ id)) }
set_resolved _ field = record field { resolved = some (or_default field.resolved none) }

module _ (tenant_id source_system : Text) (er_index : RecordIndex) where
  abbrev pub record_key : Text → Text → RecordKey
  record_key target_type source_record_id = record {
    tenant_id = tenant_id;
    cdm_entity_type = target_type;
    source_system = source_system;
    source_record_id = source_record_id;
  }

  abbrev pub resolve_typed : Option Text → Scalar → FkEntry → FkEntry
  resolve_typed none value field = field
  resolve_typed (some target_type) value field =
      set_resolved (lookup_target er_index (record_key target_type (str value))) field

  abbrev pub resolve_value : Text → Option Scalar → FkEntry → FkEntry
  resolve_value attr_name none field = field
  resolve_value attr_name (some value) field =
      if looks_like_fk attr_name field
      then resolve_typed (infer_fk_target_entity_type attr_name field.fk_target_entity_type) value
          field
      else field

  unfoldable pub resolve_fk_field : Text → FkField → FkField
  unfolding looks_like_fk infer_fk_target_entity_type lookup_target
  resolve_fk_field attr_name (bare value) = bare value
  resolve_fk_field attr_name (entry field) =
      entry (resolve_value attr_name (filled field.value) field)

  unfoldable pub resolve_fk_targets_in_fields : Dict FkField → Dict FkField
  unfolding resolve_fk_field
  resolve_fk_targets_in_fields fields =
      map (λ item. (item.0, resolve_fk_field item.0 item.1)) fields
