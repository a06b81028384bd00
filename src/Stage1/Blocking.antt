-- ===== src/Stage1/Blocking.antt =====
-- The blocking key of transform/stage1_normalise.py: `_compute_blocking_key` and its fallback.
pub mod Parts
use nexus_spark_lib.Base.{
  Text, ℕ, zero, suc, Bool, true, false, not, ◌&&◌, ◌||◌, Option, none, some, List, [], ◌∷◌, ◌++◌,
  codes, any, if◌then◌else◌, text_eq, text_ltb, ltb, leb, ◌==◌, strip, lower, ends_with, contains,
  in_texts, non_empty, or_text, sort_by, Dict, dict_get, keys, length,
}
use nexus_spark_lib.Stage3.Context.{Scalar, text, str}
use nexus_spark_lib.Hashing.{Digest, take, join, blocking_key_hash}
use nexus_spark_lib.Stage1.Values.{basename}
use nexus_spark_lib.Stage1.Fields.{NormalisedEntry, entry_value}

abbrev pub fallback_exact_priority : List Text
fallback_exact_priority =
    codes "identifier"
    ∷ codes "id"
    ∷ codes "external_id"
    ∷ codes "unique_identifier"
    ∷ codes "record_id"
    ∷ codes "transaction_id"
    ∷ codes "document_id"
    ∷ codes "order_id"
    ∷ codes "invoice_id"
    ∷ codes "payment_id"
    ∷ codes "tracking_number"
    ∷ codes "document_number"
    ∷ codes "order_number"
    ∷ codes "invoice_number"
    ∷ codes "reference_number"
    ∷ []

abbrev pub fallback_suffixes : List Text
fallback_suffixes = codes "_id" ∷ codes "_identifier" ∷ codes "_number" ∷ codes "_code" ∷ []

-- The place of a name in a list, or the length of the list.
unfoldable pub place_in : List Text → Text → ℕ
place_in [] name = 0
place_in (t ∷ ts) name = if text_eq t name then 0 else suc (place_in ts name)

unfoldable pub fallback_rank : Text → ℕ
unfolding place_in basename
fallback_rank attribute_name = place_in fallback_exact_priority (basename attribute_name)

-- The order of `_fallback_blocking_sort_key`.
abbrev pub fallback_before : Text → Text → Bool
fallback_before a b =
    ltb (fallback_rank a) (fallback_rank b)
    || ((fallback_rank a == fallback_rank b) && text_ltb a b)

abbrev pub part_of_text : Text → Option Text
part_of_text [] = none
part_of_text (c ∷ t) = some (take 32 (c ∷ t))

unfoldable pub normalise_blocking_part : Option Scalar → Option Text
unfolding strip lower take
normalise_blocking_part none = none
normalise_blocking_part (some value) = part_of_text (lower (strip (str value)))

abbrev append_part : Option Text → List Text → List Text
append_part none parts = parts
append_part (some part) parts = part ∷ parts

unfoldable pub extract_blocking_parts : Dict NormalisedEntry → List Text → List Text
unfolding normalise_blocking_part
extract_blocking_parts fields [] = []
extract_blocking_parts fields (column ∷ columns) =
    append_part (normalise_blocking_part (entry_value (dict_get column fields)))
      (extract_blocking_parts fields columns)

abbrev is_candidate_entry : Text → Option NormalisedEntry → Bool
is_candidate_entry attribute_name none = false
is_candidate_entry attribute_name (some entry) =
    not (non_empty entry.fk_target_entity_type)
    && (not (contains (codes "foreign") (lower (strip entry.attribute_kind)))
        && (in_texts (basename attribute_name) fallback_exact_priority
            || any (λ suffix. ends_with suffix (basename attribute_name)) fallback_suffixes))

unfoldable pub is_fallback_blocking_candidate : Text → Option NormalisedEntry → Bool
unfolding basename in_texts ends_with contains strip lower
is_fallback_blocking_candidate attribute_name entry = is_candidate_entry attribute_name entry

-- A part that is neither missing nor seen is appended.
abbrev pub add_part : Option Text → List Text → List Text
add_part none parts = parts
add_part (some part) parts = if in_texts part parts then parts else parts ++ part ∷ []

abbrev pub part_at : Dict NormalisedEntry → Text → Option Text
part_at fields attribute_name =
    let entry = dict_get attribute_name fields in
    if is_fallback_blocking_candidate attribute_name entry
    then normalise_blocking_part (entry_value entry)
    else none

-- The loop over the sorted attributes, which ends at three parts.
unfoldable pub fallback_parts : Dict NormalisedEntry → List Text → List Text → List Text
unfolding is_fallback_blocking_candidate normalise_blocking_part in_texts
fallback_parts fields [] parts = parts
fallback_parts fields (attribute_name ∷ names) parts =
    let parts' = add_part (part_at fields attribute_name) parts in
    let rest = fallback_parts fields names parts' in if leb 3 (length parts') then parts' else rest

abbrev of_source_record : Text → Option Text → Text
of_source_record cdm_entity_type none = cdm_entity_type
of_source_record cdm_entity_type (some part) = part

abbrev joined_or : List Text → Text → Text
joined_or [] other = other
joined_or (part ∷ parts) other = join (codes "|") (part ∷ parts)

unfoldable pub candidate_parts : Dict NormalisedEntry → List Text
unfolding fallback_parts fallback_rank
candidate_parts fields = fallback_parts fields (sort_by fallback_before (keys fields)) []

unfoldable pub derive_fallback_blocking_value : Text → Dict NormalisedEntry → Text → Text
unfolding candidate_parts normalise_blocking_part join
derive_fallback_blocking_value cdm_entity_type fields source_record_id =
    joined_or (candidate_parts fields)
      (of_source_record cdm_entity_type (normalise_blocking_part (some (text source_record_id))))

-- The configured columns of a tenant and a type.
abbrev pub BlockingRules : Type 0
BlockingRules = Option (Text → Text → List Text)

abbrev blocking_columns : BlockingRules → Text → Text → List Text
blocking_columns none tenant_id cdm_entity_type = []
blocking_columns (some rules) tenant_id cdm_entity_type = rules tenant_id cdm_entity_type

unfoldable pub compute_blocking_key :
    Digest → Text → Text → Dict NormalisedEntry → BlockingRules → Text → Text
unfolding extract_blocking_parts derive_fallback_blocking_value join blocking_key_hash
compute_blocking_key sha256 tenant_id cdm_entity_type fields rules source_record_id =
    blocking_key_hash sha256 tenant_id cdm_entity_type (
      joined_or (extract_blocking_parts fields (blocking_columns rules tenant_id cdm_entity_type))
        (derive_fallback_blocking_value cdm_entity_type fields source_record_id))
