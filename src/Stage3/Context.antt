-- ===== src/Stage3/Context.antt =====
-- The records of stage3_synthesise.py, and the stores of `SynthesisContext` as an interface: its
-- caller supplies them. `S` is what the stores hold.
use nexus_spark_lib.Base.{◌≡◌, Text, ℕ, Bool, Option, some, List, Dict, dict_get, codes}
use nexus_spark_lib.Models.Survivorship.{SurvivorshipRule, ProvenanceRow}

-- A value of a normalised field; a number is its Python text.
pub data Scalar : Type 0 where
  text : Text → Scalar
  number : Text → Scalar
  flag : Bool → Scalar

-- A field: a plain value, or a dictionary with the key "value". `none` is None.
pub data Field : Type 0 where
  plain : Option Scalar → Field
  wrapped : Option Scalar → Field

unfoldable pub extract_field_value : Field → Option Scalar
extract_field_value (plain v) = v
extract_field_value (wrapped v) = v

-- str(value)
abbrev pub str : Scalar → Text
str (text t) = t
str (number t) = t
str (flag Bool.true) = codes "True"
str (flag Bool.false) = codes "False"

-- What json.loads makes of changed_canonical_attributes_json: an error, a list with the text of each
-- item (`none` for an item that Python holds false), or something else.
pub data JsonAttributes : Type 0 where
  malformed : JsonAttributes
  array : List (Option Text) → JsonAttributes
  other_json : JsonAttributes

pub record NormalisedRecord : Type 0 where
  pub tenant_id : Text
  pub cdm_entity_type : Text
  pub connector_id : Text
  pub source_table : Text
  pub source_record_id : Text
  pub source_ts : Text
  pub canonical_fields : Dict Field
  pub source_op : Text
  pub cdm_entity_id : Text
  pub er_confidence : ℕ
  pub changed_canonical_attributes_json : JsonAttributes

pub record ResolutionResult : Type 0 where
  pub cdm_entity_id : Text
  pub confidence : ℕ
  pub is_provisional : Bool
  pub is_new_entity : Bool

pub record ErIndexEntry : Type 0 where
  pub connector_id : Text
  pub source_table : Text
  pub source_record_id : Text
  pub source_ts : Text
  pub confidence : ℕ
  pub completeness_score : ℕ
  pub cdm_entity_id : Text

pub record ProvenanceChange : Type 0 where
  pub row : ProvenanceRow
  pub changed : Bool

pub data DeleteAction : Type 0 where
  no_op tombstoned_action re_elected_action : DeleteAction

pub record DeleteResult : Type 0 where
  pub affected_cdm_entity_id : Option Text
  pub action : DeleteAction
  pub re_elected_attributes : List Text
  pub removed_attributes : List Text

-- The stores: provenance, gr_index, er_index, completeness_cache, delta_lake and events.
pub record SynthesisContext (S : Type 0) : Type 0 where
  pub get_all : S → Text → Dict ProvenanceRow
  pub upsert_returning_changed : ProvenanceRow → S → Bool × S
  pub delete_attribute : Text → Text → Text → Text → S → S
  pub delete_all : Text → S → S
  pub get_attributes_won_by : S → Text → Text → Text → List Text
  pub rules : Text → Text → Dict SurvivorshipRule
  pub get_hash : S → Text → Text
  pub update_hash : Text → Text → S → S
  pub tombstone : Text → S → S
  pub lookup_source : S → Text → Text → Text → Text → Option ErIndexEntry
  pub delete_source : Text → Text → Text → S → S
  pub get_all_for_entity : S → Text → List ErIndexEntry
  pub get_confidence : S → Text → Text → ℕ
  pub get_completeness : S → Text → Text → ℕ
  pub read_attribute : S → Text → Text → Text → Text → Option Scalar
  pub emit_remove : Text → Text → S → S
  pub emit_upsert : Text → Text → S → S

-- What the code relies on: the hash of a record is the one that was last written, and the writes of
-- provenance and of the source index leave it alone.
pub record IsStore {S : Type 0} (ctx : SynthesisContext S) : Type 0 where
  pub hash_written : (e h : Text) (s : S) → ctx.get_hash (ctx.update_hash e h s) e ≡ h
  pub hash_upsert :
      (e : Text) (row : ProvenanceRow) (s : S)
      → ctx.get_hash (ctx.upsert_returning_changed row s).1 e ≡ ctx.get_hash s e
  pub hash_delete :
      (e i a c r : Text) (s : S)
      → ctx.get_hash (ctx.delete_attribute i a c r s) e ≡ ctx.get_hash s e

-- What the code relies on: a row of provenance is stored under its own attribute, a write or a
-- deletion touches no other attribute, and the hash of a record is kept apart.
pub record IsProvenanceStore {S : Type 0} (ctx : SynthesisContext S) : Type 0 where
  pub stored_name :
      (e a : Text) (row : ProvenanceRow) (s : S)
      → dict_get a (ctx.get_all s e) ≡ some row
      → row.attribute_name ≡ a
  pub get_upsert :
      (e a : Text) (row : ProvenanceRow) (s : S)
      → ¬ (a ≡ row.attribute_name)
      → dict_get a (ctx.get_all (ctx.upsert_returning_changed row s).1 e)
        ≡ dict_get a (ctx.get_all s e)
  pub get_delete :
      (e a i b c r : Text) (s : S)
      → ¬ (a ≡ b)
      → dict_get a (ctx.get_all (ctx.delete_attribute i b c r s) e) ≡ dict_get a (ctx.get_all s e)
  pub get_hashed :
      (e a i h : Text) (s : S)
      → dict_get a (ctx.get_all (ctx.update_hash i h s) e) ≡ dict_get a (ctx.get_all s e)
