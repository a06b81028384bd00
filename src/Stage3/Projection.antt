-- ===== src/Stage3/Projection.antt =====
-- The DataFrame path of transform/stage3_synthesise.py: `_synthesise_dataframe`, one row at a time,
-- and the UDF `_compute_provenance_hash_udf` that computes the same hash in Python. JSON columns are
-- the dictionaries that they hold.
pub mod SameHash
use nexus_spark_lib.Base.{
  Text, ℕ, Bool, true, false, Option, none, some, List, [], ◌∷◌, ◌++◌, codes, map, keep, any,
  if◌then◌else◌, ◌==◌, is_some, text_eq, text_ltb, sort_by, Dict, dict_get, keys, or_default,
  or_text,
}
use nexus_spark_lib.Hashing.{Digest, provenance_hash, provenance_hash_from_winning_records}

-- What from_json reads in normalised_json: an object of fields with a value, an object of scalars, or
-- neither.
pub data NormalisedJson : Type 0 where
  objects scalars : Dict (Option Text) → NormalisedJson
  unreadable : NormalisedJson

pub record SynthesisRow : Type 0 where
  pub normalised : NormalisedJson
  pub source_system : Text
  pub source_record_id : Text

pub record GoldenRow : Type 0 where
  pub golden_fields : Dict Text
  pub attribute_provenance : Dict Text
  pub provenance_hash_column : Text

unfoldable pub not_null : Dict (Option Text) → Dict Text
not_null [] = []
not_null ((k, none) ∷ fields) = not_null fields
not_null ((k, some v) ∷ fields) = (k, v) ∷ not_null fields

unfoldable pub raw_golden_fields : NormalisedJson → Dict Text
unfolding not_null
raw_golden_fields (objects fields) = not_null fields
raw_golden_fields (scalars fields) = not_null fields
raw_golden_fields unreadable = []

-- F.element_at on a key that is there.
abbrev pub element_at : Dict Text → Text → Text
element_at fields attr = or_default (dict_get attr fields) []

unfoldable pub golden_keys : NormalisedJson → List Text
unfolding raw_golden_fields
golden_keys json = sort_by text_ltb (keys (raw_golden_fields json))

unfoldable pub golden_fields_of : NormalisedJson → Dict Text
unfolding golden_keys raw_golden_fields dict_get
golden_fields_of json =
    map (λ attr. (attr, element_at (raw_golden_fields json) attr)) (golden_keys json)

-- F.concat_ws(":", source_system, record_id), whose parts are not NULL.
abbrev pub source_pointer : SynthesisRow → Text
source_pointer r = r.source_system ++ (codes ":" ++ r.source_record_id)

abbrev bar_after : Text → Text
bar_after [] = []
bar_after (c ∷ acc) = codes "|"

abbrev pub summary_part : Digest → Text → Dict Text → Text → Text
summary_part sha256 record_id fields attr =
    attr ++ (codes "=" ++ (record_id ++ (codes ":" ++ sha256 (element_at fields attr))))

-- F.aggregate over the keys.
unfoldable pub provenance_summary : Digest → Text → Dict Text → List Text → Text → Text
provenance_summary sha256 record_id fields [] acc = acc
provenance_summary sha256 record_id fields (attr ∷ attrs) acc =
    provenance_summary sha256 record_id fields attrs
      (acc ++ (bar_after acc ++ summary_part sha256 record_id fields attr))

unfoldable pub project_row : Digest → SynthesisRow → GoldenRow
unfolding golden_fields_of golden_keys provenance_summary provenance_hash
project_row sha256 r =
    let names = golden_keys r.normalised in
    let fields = golden_fields_of r.normalised in
    record {
      golden_fields = fields;
      attribute_provenance = map (λ attr. (attr, source_pointer r)) names;
      provenance_hash_column =
          provenance_hash sha256 (provenance_summary sha256 r.source_record_id fields names []);
    }

-- pointer.split(":", 1)[1], or the whole pointer without a ":".
unfoldable pub after_colon : Text → Option Text
after_colon [] = none
after_colon (c ∷ s) = let rest = after_colon s in if c == b':' then some s else rest

abbrev pub winner_of : Text × Text → Text × Text
winner_of (attribute_name, pointer) = (attribute_name, or_default (after_colon pointer) pointer)

abbrev pub with_hash : Digest → Text → Option Text → Dict Text → Dict Text
with_hash sha256 attribute_name none hashes = hashes
with_hash sha256 attribute_name (some value) hashes = (attribute_name, sha256 value) ∷ hashes

-- sha256_hex(str(golden_fields[attribute_name])), where it is there.
unfoldable pub value_hashes : Digest → Dict Text → Dict Text → Dict Text
unfolding dict_get
value_hashes sha256 golden_fields [] = []
value_hashes sha256 golden_fields ((attribute_name, pointer) ∷ provenance) =
    with_hash sha256 attribute_name (dict_get attribute_name golden_fields)
      (value_hashes sha256 golden_fields provenance)

unfoldable pub compute_provenance_hash_udf : Digest → Dict Text → Dict Text → Text
unfolding after_colon value_hashes provenance_hash_from_winning_records
compute_provenance_hash_udf sha256 attribute_provenance golden_fields =
    provenance_hash_from_winning_records sha256 (map winner_of attribute_provenance)
      (value_hashes sha256 golden_fields attribute_provenance)
