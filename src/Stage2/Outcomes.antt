-- ===== src/Stage2/Outcomes.antt =====
-- nexus_spark_lib/transform/stage2_resolve/er_outcomes.py: when an UPDATE is resolved again, and the
-- operation of a resolved record. A weight is a number of ten-thousandths.
pub mod Relevant
use nexus_spark_lib.Base.{
  ends_with, Text, ℕ, Bool, true, false, not, ◌&&◌, ◌||◌, Option, none, some, List, [], ◌∷◌, ◌++◌,
  codes, if◌then◌else◌, leb, text_eq, lower, upper, any, keep, keys, Dict, or_default,
}
use nexus_spark_lib.Stage3.Context.{JsonAttributes, malformed, array, other_json}
use nexus_spark_lib.Stage2.Signals.{ErIndex}

abbrev pub names_match_lower : Text → Text → Bool
names_match_lower normalised [] = false
names_match_lower normalised (c ∷ configured) =
    text_eq normalised (c ∷ configured)
    || (ends_with (b'.' ∷ c ∷ configured) normalised
        || ends_with (b'.' ∷ normalised) (c ∷ configured))

-- The test of the loop of `_matches_any_attribute` on one configured name.
unfoldable pub names_match : Text → Text → Bool
unfolding ends_with lower
names_match attribute_name configured = names_match_lower (lower attribute_name) (lower configured)

unfoldable pub matches_any_attribute : Text → List Text → Bool
unfolding names_match
matches_any_attribute attribute_name configured_attributes =
    any (names_match attribute_name) configured_attributes

-- The attributes of a weight of at least 0.20.
unfoldable pub relevant_weighted_attributes : Dict ℕ → List Text
relevant_weighted_attributes weights = keys (keep (λ item. leb 2000 item.1) weights)

-- The body of the loop over the changed attributes; an item that Python holds false is "".
abbrev pub is_relevant : List Text → List Text → Option Text → Bool
is_relevant deterministic weighted item =
    matches_any_attribute (or_default item []) deterministic
    || matches_any_attribute (or_default item []) weighted

abbrev pub touches : List Text → List Text → JsonAttributes → Bool
touches deterministic weighted malformed = false
touches deterministic weighted other_json = false
touches deterministic weighted (array items) = any (is_relevant deterministic weighted) items

unfoldable pub update_requires_reresolution : ErIndex → Text → Text → Text → JsonAttributes → Bool
unfolding matches_any_attribute relevant_weighted_attributes upper
update_requires_reresolution er_index tenant_id cdm_entity_type source_op changed =
    text_eq (upper source_op) (codes "UPDATE")
    && touches (er_index.deterministic_columns tenant_id cdm_entity_type)
        (relevant_weighted_attributes (er_index.thresholds tenant_id cdm_entity_type).weights)
        changed

-- `prior_cdm_entity_id and prior_cdm_entity_id != new_cdm_entity_id`
abbrev pub is_other : Option Text → Text → Bool
is_other none new_cdm_entity_id = false
is_other (some []) new_cdm_entity_id = false
is_other (some (c ∷ prior)) new_cdm_entity_id = not (text_eq (c ∷ prior) new_cdm_entity_id)

unfoldable pub infer_gr_operation : Option Text → Text → Text → Text
unfolding upper
infer_gr_operation prior_cdm_entity_id new_cdm_entity_id source_op =
    if text_eq (upper source_op) (codes "RELEVEL")
    then codes "RELEVEL"
    else if is_other prior_cdm_entity_id new_cdm_entity_id
    then codes "SPLIT"
    else codes "UPSERT"
