-- ===== src/Stage2/Snapshot.antt =====
-- `load_er_index_snapshot` of nexus_spark_lib/db/er_index.py, with the record `ErIndexSnapshot` of
-- models/broadcasts.py and `load_deterministic_id_columns` of db/survivorship_rules.py. The time of
-- loading is left out. A NULL of the index is the empty text; a join lists its rows by nested loops,
-- which SQL leaves open.
pub mod Served
pub mod Writes
pub mod Persisted
pub mod Records
pub mod Limits
use nexus_spark_lib.Base.{
  Text, ℕ, Bool, true, false, ◌&&◌, Option, none, some, List, [], ◌∷◌, ◌++◌, map, keep, length,
  if◌then◌else◌, text_eq, or_text, non_empty, Dict, dict_set, dict_set_default, or_default,
}
use nexus_spark_lib.Hashing.{
  er_source_lookup_key, er_legacy_source_lookup_key, er_deterministic_lookup_key,
}
use nexus_spark_lib.Models.ErTypes.{GoldenRecordState, active, provisional}
use nexus_spark_lib.Db.Rows.{ErRow, GoldenRow, GrpRow, Database}
use nexus_spark_lib.Stage2.Signals.{ErIndex, Thresholds}
use nexus_spark_lib.Stage2.ForeignKeys.{RecordKey, RecordIndex, key_eq}
use nexus_spark_lib.Stage2.Broadcast.{PairDict, same_pair, pair_get, pair_set}

-- deterministic_id_columns and er_thresholds; a score is a number of ten-thousandths.
pub record IdColumn : Type 0 where
  pub tenant_id : Text
  pub cdm_entity_type : Text
  pub attribute_name : Text

pub record ThresholdRow : Type 0 where
  pub tenant_id : Text
  pub cdm_entity_type : Text
  pub weights : Option (Dict ℕ)
  pub auto_apply_threshold : ℕ
  pub review_lower_bound : ℕ

-- A row of the join of provenance, golden records and deterministic columns.
pub record HashRow : Type 0 where
  pub tenant_id : Text
  pub cdm_entity_id : Text
  pub attribute_name : Text
  pub observed_value_hash : Text
  pub cdm_entity_type : Text

abbrev is_open : GoldenRecordState → Bool
is_open active = true
is_open provisional = true
is_open _ = false

abbrev is_joined : GrpRow → GoldenRow → IdColumn → Bool
is_joined grp gri dic =
    (text_eq gri.cdm_entity_id grp.cdm_entity_id && is_open gri.state)
    && (text_eq dic.tenant_id grp.tenant_id
        && (text_eq dic.cdm_entity_type gri.cdm_entity_type
            && text_eq dic.attribute_name grp.attribute_name))

abbrev hash_row : GrpRow → GoldenRow → IdColumn → HashRow
hash_row grp gri dic = record {
  tenant_id = grp.tenant_id;
  cdm_entity_id = grp.cdm_entity_id;
  attribute_name = grp.attribute_name;
  observed_value_hash = grp.observed_value_hash;
  cdm_entity_type = gri.cdm_entity_type;
}

unfoldable pub joined_to : List IdColumn → GrpRow → List GoldenRow → List HashRow
unfolding keep
joined_to columns grp [] = []
joined_to columns grp (gri ∷ golden) =
    map (hash_row grp gri) (keep (is_joined grp gri) columns) ++ joined_to columns grp golden

unfoldable pub deterministic_rows : List IdColumn → List GoldenRow → List GrpRow → List HashRow
unfolding joined_to
deterministic_rows columns golden [] = []
deterministic_rows columns golden (grp ∷ provenance) =
    joined_to columns grp golden ++ deterministic_rows columns golden provenance

-- result.setdefault(key, []).append(x)
unfoldable pub pair_append : Text × Text → Text → PairDict (List Text) → PairDict (List Text)
pair_append key x [] = (key, x ∷ []) ∷ []
pair_append key x ((k, xs) ∷ d) =
    if same_pair k key then (k, xs ++ x ∷ []) ∷ d else (k, xs) ∷ pair_append key x d

unfoldable pub put_id_columns : List IdColumn → PairDict (List Text) → PairDict (List Text)
unfolding pair_append
put_id_columns [] result = result
put_id_columns (dic ∷ columns) result =
    put_id_columns columns
      (pair_append (dic.tenant_id, dic.cdm_entity_type) dic.attribute_name result)

abbrev pub load_deterministic_id_columns : List IdColumn → PairDict (List Text)
load_deterministic_id_columns columns = put_id_columns columns []

-- The first loop over the rows of the index.
abbrev pub connector_of : ErRow → Text
connector_of row = or_text row.connector_id row.source_system

abbrev pub system_of : ErRow → Text
system_of row = or_text row.source_system row.connector_id

abbrev pub row_key : ErRow → Text
row_key row =
    er_source_lookup_key row.tenant_id (connector_of row) row.source_table row.source_record_id

abbrev pub legacy_key : ErRow → Text
legacy_key row = er_legacy_source_lookup_key row.tenant_id (system_of row) row.source_record_id

abbrev pub put_row : ErRow → Dict Text → Dict Text
put_row row snapshot =
    let placed = dict_set (row_key row) row.cdm_entity_id snapshot in
    if non_empty (system_of row)
    then dict_set_default (legacy_key row) row.cdm_entity_id placed
    else placed

unfoldable pub put_rows : List ErRow → Dict Text → Dict Text
unfolding dict_set dict_set_default er_source_lookup_key er_legacy_source_lookup_key
put_rows [] snapshot = snapshot
put_rows (row ∷ rows) snapshot = put_rows rows (put_row row snapshot)

-- The loop over the deterministic rows.
abbrev pub hash_key : HashRow → Text
hash_key row =
    er_deterministic_lookup_key row.tenant_id row.cdm_entity_type row.attribute_name
      row.observed_value_hash

unfoldable pub put_hashes : List HashRow → Dict Text → Dict Text
unfolding dict_set_default er_deterministic_lookup_key
put_hashes [] snapshot = snapshot
put_hashes (row ∷ rows) snapshot =
    put_hashes rows (dict_set_default (hash_key row) row.cdm_entity_id snapshot)

abbrev threshold_config : ThresholdRow → Thresholds
threshold_config row = record {
  auto_apply_threshold = some row.auto_apply_threshold;
  review_lower_bound = some row.review_lower_bound;
  weights = or_default row.weights [];
}

unfoldable pub put_thresholds : List ThresholdRow → PairDict Thresholds → PairDict Thresholds
unfolding pair_set
put_thresholds [] thresholds = thresholds
put_thresholds (row ∷ rows) thresholds =
    put_thresholds rows
      (pair_set (row.tenant_id, row.cdm_entity_type) (threshold_config row) thresholds)

-- The second loop over the rows of the index.
abbrev pub record_key : ErRow → RecordKey
record_key row = record {
  tenant_id = row.tenant_id;
  cdm_entity_type = row.cdm_entity_type;
  source_system = system_of row;
  source_record_id = row.source_record_id;
}

abbrev pub is_named : ErRow → Bool
is_named row =
    non_empty row.cdm_entity_type && (non_empty row.source_record_id && non_empty (system_of row))

unfoldable pub record_set_default : RecordKey → Text → RecordIndex → RecordIndex
record_set_default key id [] = (key, id) ∷ []
record_set_default key id ((k, w) ∷ index) =
    if key_eq k key then (k, w) ∷ index else (k, w) ∷ record_set_default key id index

unfoldable pub put_records : List ErRow → RecordIndex → RecordIndex
unfolding record_set_default
put_records [] records = records
put_records (row ∷ rows) records = put_records rows (
    if is_named row then record_set_default (record_key row) row.cdm_entity_id records else records)

pub record ErIndexSnapshot : Type 0 where
  pub snapshot : Dict Text
  pub deterministic_columns : PairDict (List Text)
  pub thresholds : PairDict Thresholds
  pub deterministic_hash_count : ℕ
  pub source_records_by_entity : RecordIndex

unfoldable pub load_er_index_snapshot :
    List IdColumn → List ThresholdRow → Database → ErIndexSnapshot
unfolding put_rows put_hashes deterministic_rows put_id_columns put_thresholds put_records
load_er_index_snapshot id_columns er_thresholds db =
    let hashes = deterministic_rows id_columns db.golden db.provenance in
    record {
      snapshot = put_hashes hashes (put_rows db.index []);
      deterministic_columns = load_deterministic_id_columns id_columns;
      thresholds = put_thresholds er_thresholds [];
      deterministic_hash_count = length hashes;
      source_records_by_entity = put_records db.index [];
    }

-- What the stage reads of a snapshot: missing columns are none, missing thresholds the defaults.
abbrev no_config : Thresholds
no_config = record { auto_apply_threshold = none; review_lower_bound = none; weights = [] }

unfoldable pub snapshot_index : ErIndexSnapshot → ErIndex
unfolding pair_get
snapshot_index s = record {
  snapshot = s.snapshot;
  deterministic_columns = λ tenant_id cdm_entity_type.
      or_default (pair_get (tenant_id, cdm_entity_type) s.deterministic_columns) [];
  thresholds = λ tenant_id cdm_entity_type.
      or_default (pair_get (tenant_id, cdm_entity_type) s.thresholds) no_config;
}
