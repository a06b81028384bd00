-- ===== src/Stage1/Fields.antt =====
-- `_normalise_payload` of transform/stage1_normalise.py: from a payload to the canonical fields. A
-- missing key of the metadata is "", or `none`; a confidence is a number of ten-thousandths, and an
-- explicit priority is not negative.
pub mod Selection
pub mod Changes
use nexus_spark_lib.Base.{
  Text, ℕ, Bool, true, false, not, ◌&&◌, ◌||◌, Option, none, some, List, [], ◌∷◌, codes, keep, any,
  if◌then◌else◌, text_eq, text_ltb, strip, lower, ends_with, in_texts, split, non_empty, sort_by,
  Dict, dict_get, dict_set, keys, unique, ◌++◌, or_default, or_text,
}
use nexus_spark_lib.Stage3.Context.{Scalar}
use nexus_spark_lib.Stage1.Values.{
  Python, strip_null_like, normalise_mapped_source_value, coerce_value, basename, value_eq,
}

-- The metadata of a mapped field. `mapping_priority` is `none` if it is None, and 0 if it is not an
-- integer.
pub record FieldMeta : Type 0 where
  pub cdm_type : Text
  pub attribute_kind : Text
  pub pii : Bool
  pub primary_key : Bool
  pub currency_field : Text
  pub target_currency : Text
  pub fk_target_entity_type : Text
  pub fk_target_source_table : Text
  pub mapping_confidence : ℕ
  pub mapping_priority : Option ℕ

-- field_map.get(f"__meta__{raw_key}", {})
abbrev pub no_meta : FieldMeta
no_meta = record {
  cdm_type = codes "string";
  attribute_kind = [];
  pii = false;
  primary_key = false;
  currency_field = [];
  target_currency = codes "USD";
  fk_target_entity_type = [];
  fk_target_source_table = [];
  mapping_confidence = 0;
  mapping_priority = none;
}

-- The keys of the source fields, and those with the prefix "__meta__".
pub record FieldMap : Type 0 where
  pub attributes : Dict Text
  pub metas : Dict FieldMeta

unfoldable pub meta_of : FieldMap → Text → FieldMeta
meta_of field_map raw_key = or_default (dict_get raw_key field_map.metas) no_meta

pub data FieldQuality : Type 0 where
  good missing suspect : FieldQuality

pub record NormalisedEntry : Type 0 where
  pub value : Option Scalar
  pub quality : FieldQuality
  pub source_attribute : Text
  pub pii_flag : Bool
  pub attribute_kind : Text
  pub fk_target_entity_type : Text
  pub fk_target_source_table : Text

-- `fx_rates.convert` and its `converted_amount`, at the record's time, from a currency to another;
-- `none` is an exception.
abbrev pub FxConvert : Type 0
FxConvert = Text → Scalar → Text → Text → Option Scalar

abbrev converted : Scalar → Option Scalar → Option Scalar × FieldQuality
converted raw_value none = (some raw_value, suspect)
converted raw_value (some amount) = (some amount, good)

-- The rates and the time of the record, if both are there.
abbrev convert_by :
    Option FxConvert → Option Text → FieldMeta → Scalar → Option Scalar × FieldQuality
convert_by none source_ts meta raw_value = (some raw_value, good)
convert_by (some convert) none meta raw_value = (some raw_value, good)
convert_by (some convert) (some ts) meta raw_value =
    converted raw_value (convert ts raw_value meta.currency_field meta.target_currency)

unfoldable pub apply_fx_if_monetary :
    Option FxConvert → Option Text → FieldMeta → Option Scalar → Option Scalar × FieldQuality
apply_fx_if_monetary fx_rates source_ts meta none = (none, missing)
apply_fx_if_monetary fx_rates source_ts meta (some raw_value) =
    if non_empty meta.currency_field
    then convert_by fx_rates source_ts meta raw_value
    else (some raw_value, good)

abbrev tokens : Text → List Text
tokens name = keep non_empty (split b'_' name)

unfoldable pub affinity : Text → Text → ℕ
unfolding ends_with in_texts split
affinity source_name cdm_name =
    if text_eq source_name cdm_name
    then 3
    else if (non_empty source_name && non_empty cdm_name)
        && (ends_with cdm_name source_name || ends_with source_name cdm_name)
    then 2
    else if any (λ token. in_texts token (tokens cdm_name)) (tokens source_name)
    then 1
    else 0

abbrev as_bit : Bool → ℕ
as_bit true = 1
as_bit false = 0

-- A tuple of five numbers, compared item by item as texts are.
abbrev pub Priority : Type 0
Priority = List ℕ

abbrev explicit : Option ℕ → ℕ × ℕ
explicit none = (0, 0)
explicit (some n) = (1, n)

unfoldable pub mapping_selection_priority : Text → Text → FieldMeta → Priority
unfolding affinity basename
mapping_selection_priority source_attribute cdm_attribute meta =
    let (given, explicit_priority) = explicit meta.mapping_priority in
    given
    ∷ explicit_priority
    ∷ as_bit meta.primary_key
    ∷ meta.mapping_confidence
    ∷ affinity (basename source_attribute) (basename cdm_attribute)
    ∷ []

abbrev pub Item : Type 0
Item = Text × Option Scalar

-- The three dictionaries of the loop.
pub record Selected : Type 0 where
  pub fields : Dict NormalisedEntry
  pub priorities : Dict Priority
  pub extras : Dict (Option Scalar)

abbrev pub nothing_selected : Selected
nothing_selected = record { fields = []; priorities = []; extras = [] }

abbrev outranks : Priority → Option Priority → Bool
outranks candidate none = true
outranks candidate (some current) = text_ltb current candidate

abbrev pub key_before : Item → Item → Bool
key_before a b = text_ltb a.0 b.0

abbrev pub cdm_attr_of : FieldMap → Item → Option Text
cdm_attr_of field_map item = dict_get item.0 field_map.attributes

module _ (py : Python) (fx_rates : Option FxConvert) (source_ts : Option Text)
    (field_map : FieldMap) where
  unfoldable pub normalised_entry : Text → Item → NormalisedEntry
  unfolding apply_fx_if_monetary coerce_value normalise_mapped_source_value meta_of strip lower
  normalised_entry cdm_attr (raw_key, raw_value) =
      let meta = meta_of field_map raw_key in
      let prepared = normalise_mapped_source_value py meta.attribute_kind cdm_attr raw_value in
      let (value, quality) =
        apply_fx_if_monetary fx_rates source_ts meta (coerce_value py meta.cdm_type prepared) in
      record {
        value = value;
        quality = quality;
        source_attribute = raw_key;
        pii_flag = meta.pii;
        attribute_kind = lower (strip meta.attribute_kind);
        fk_target_entity_type = strip meta.fk_target_entity_type;
        fk_target_source_table = strip meta.fk_target_source_table;
      }

  unfoldable pub candidate_priority : Text → Item → Priority
  unfolding mapping_selection_priority meta_of
  candidate_priority cdm_attr (raw_key, raw_value) =
      mapping_selection_priority raw_key cdm_attr (meta_of field_map raw_key)

  -- The body of the loop, by what the item's key is mapped to.
  abbrev pub select_mapped : Option Text → Item → Selected → Selected
  select_mapped none (raw_key, raw_value) st = record st {
    extras = dict_set raw_key (strip_null_like raw_value) st.extras;
  }
  select_mapped (some cdm_attr) item st =
      if outranks (candidate_priority cdm_attr item) (dict_get cdm_attr st.priorities)
      then record st {
        fields = dict_set cdm_attr (normalised_entry cdm_attr item) st.fields;
        priorities = dict_set cdm_attr (candidate_priority cdm_attr item) st.priorities;
      }
      else st

  unfoldable pub select_items : List Item → Selected → Selected
  unfolding normalised_entry candidate_priority strip_null_like
  select_items [] st = st
  select_items (item ∷ items) st =
      select_items items (select_mapped (cdm_attr_of field_map item) item st)

  unfoldable pub normalise_payload : List Item → Selected
  unfolding select_items
  normalise_payload payload = select_items (sort_by key_before payload) nothing_selected

abbrev pub entry_value : Option NormalisedEntry → Option Scalar
entry_value none = none
entry_value (some entry) = entry.value

-- The attributes of either dictionary whose values differ, sorted.
unfoldable pub compute_changed_canonical_attributes :
    Python → Dict NormalisedEntry → Dict NormalisedEntry → List Text
unfolding unique
compute_changed_canonical_attributes py before_fields after_fields =
    keep
      (λ attr_name. not (
        value_eq py (entry_value (dict_get attr_name before_fields))
          (entry_value (dict_get attr_name after_fields))))
      (sort_by text_ltb (unique (keys before_fields ++ keys after_fields)))
