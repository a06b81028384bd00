-- ===== src/Hashing.antt =====
-- nexus_spark_lib/_internal/hash_utils.py. SHA-256 itself is Python's hashlib: its hex digest of a
-- text is the parameter `sha256`.
pub mod Keys
pub mod Order
use nexus_spark_lib.Base.{
  ◌/◌, ◌==◌, suc, ◌%◌, ◌||◌, Dict, dict_get, Text, ℕ, zero, suc, Bool, ◌&&◌, ◌||◌, ◌/◌, ◌%◌, ◌==◌,
  Option, none, some, List, [], ◌∷◌, ◌++◌, map, codes, text_eq, text_ltb, sort_by, if◌then◌else◌,
}

abbrev pub Digest : Type 0
Digest = Text → Text

-- s[:n]
unfoldable pub take : ℕ → Text → Text
take zero s = []
take (suc n) [] = []
take (suc n) (c ∷ s) = c ∷ take n s

-- `sha256_truncated`; `none` is the ValueError for bits that are no whole hex digit.
unfoldable pub sha256_truncated : Digest → Text → ℕ → Option Text
unfolding take
sha256_truncated sha256 value bits =
    if bits % 4 == 0 then some (take (bits / 4) (sha256 value)) else none

unfoldable pub provenance_hash : Digest → Text → Text
provenance_hash sha256 canonical_summary = codes "sha256:" ++ sha256 canonical_summary

-- sep.join(parts)
unfoldable pub join : Text → List Text → Text
join sep [] = []
join sep (p ∷ []) = p
join sep (p ∷ q ∷ parts) = p ++ (sep ++ join sep (q ∷ parts))

-- A dictionary of texts.
abbrev pub Items : Type 0
Items = Dict Text

abbrev pub item_before : Text × Text → Text × Text → Bool
item_before a b = text_ltb a.0 b.0 || (text_eq a.0 b.0 && text_ltb a.1 b.1)

abbrev pub hashed_part : Text → Text → Option Text → Text
hashed_part attribute_name winning_record_id none =
    attribute_name ++ (codes "=" ++ winning_record_id)
hashed_part attribute_name winning_record_id (some value_hash) =
    attribute_name ++ (codes "=" ++ (winning_record_id ++ (codes ":" ++ value_hash)))

unfoldable pub winner_part : Items → Text × Text → Text
winner_part value_hashes (attribute_name, winning_record_id) =
    hashed_part attribute_name winning_record_id (dict_get attribute_name value_hashes)

unfoldable pub provenance_hash_from_winning_records : Digest → Items → Items → Text
unfolding winner_part join provenance_hash
provenance_hash_from_winning_records sha256 attribute_winners attribute_value_hashes =
    provenance_hash sha256 (
      join (codes "|")
        (map (winner_part attribute_value_hashes) (sort_by item_before attribute_winners)))

-- One NUL between two parts.
abbrev pub nul_join : Text → Text → Text
nul_join s t = s ++ (0 ∷ t)

unfoldable pub er_source_lookup_key : Text → Text → Text → Text → Text
er_source_lookup_key tenant_id connector_id source_table source_record_id =
    codes "src:"
    ++ nul_join tenant_id (nul_join connector_id (nul_join source_table source_record_id))

unfoldable pub er_legacy_source_lookup_key : Text → Text → Text → Text
er_legacy_source_lookup_key tenant_id source_system source_record_id =
    codes "legacy_src:" ++ nul_join tenant_id (nul_join source_system source_record_id)

unfoldable pub er_deterministic_lookup_key : Text → Text → Text → Text → Text
er_deterministic_lookup_key tenant_id cdm_entity_type attribute_name observed_value_hash =
    codes "det:"
    ++ nul_join tenant_id (nul_join cdm_entity_type (nul_join attribute_name observed_value_hash))

-- `blocking_key_hash`: 128 bits are 32 hex digits.
unfoldable pub blocking_key_hash : Digest → Text → Text → Text → Text
unfolding take
blocking_key_hash sha256 tenant_id cdm_entity_type blocking_value =
    codes "gr:" ++ take 32 (sha256 (nul_join tenant_id (nul_join cdm_entity_type blocking_value)))
