-- ===== src/Stage2/RecordExamples.antt =====
-- Runs of the theorems on one record: the gate, the signals, the resolution and its persistence.
use nexus_spark_lib.Base.{
  ◌≡◌, refl, sort_by, keep, dict_get, Text, ℕ, true, false, Option, none, some, List, [], ◌∷◌,
  codes, Dict, if◌then◌else◌, text_eq,
}
use nexus_spark_lib.Models.EntityStore.{EntityStorePresence}
use nexus_spark_lib.Stage3.Context.{text, plain, Field}
use nexus_spark_lib.Hashing.{Digest}
use nexus_spark_lib.Db.Rows.{Database}
use nexus_spark_lib.Stage2.Gate.{LookupRow, GateInput, run_materialization_gate}
use nexus_spark_lib.Stage2.Gate.Routing.{IsRouted, run_materialization_gate-IsRouted}
use nexus_spark_lib.Stage2.Signals.{ErIndex, known_id, run_signal_a, run_signal_b}
use nexus_spark_lib.Stage2.Resolve.{resolve_signals, type_error}
use nexus_spark_lib.Stage2.Resolve.Bands.{IsBanded, resolve_signals-IsBanded}
use nexus_spark_lib.Stage2.Persist.{Outcome}

abbrev tenant : Text
tenant = codes "t"

abbrev lookup_row : LookupRow
lookup_row = record {
  cdm_entity_id = codes "a";
  tenant_id = tenant;
  cdm_entity_type = codes "company";
  source_connector = codes "crm";
  source_record_id = codes "1";
  deterministic_id_column = codes "domain";
  deterministic_id_value = codes "x.org";
  is_active = none;
  confidence = some 9900;
  resolved_at = some 5;
}

abbrev fields : Dict Field
fields = (codes "domain", plain (some (text (codes " x.org ")))) ∷ []

abbrev gate_input : GateInput
gate_input = record {
  tenant_id = tenant;
  cdm_entity_type = codes "company";
  source_connector = codes "erp";
  source_record_id = codes "9";
  fields = fields;
  deterministic_columns = [];
  cdm_entity_id = none;
}

abbrev stored : Text → Text → Option EntityStorePresence
stored tenant_id id = some record {
  tenant_id = tenant_id;
  cdm_entity_id = id;
  es_present = true;
  neo4j_present = false;
  ts_present = false;
}

run_materialization_gate-IsRouted_example :
    IsRouted
      (lookup_row ∷ [])
      stored
      none
      gate_input
      (run_materialization_gate (lookup_row ∷ []) stored none gate_input)
run_materialization_gate-IsRouted_example =
    run_materialization_gate-IsRouted (lookup_row ∷ []) stored none gate_input

-- The score of a candidate: 8000 for "b", 6000 for any other.
abbrev score : Text → ℕ
score id = if text_eq id (codes "b") then 8000 else 6000

abbrev candidate_ids : List Text
candidate_ids = codes "a" ∷ codes "b" ∷ codes "c" ∷ []

abbrev er_index : ErIndex
er_index = record {
  snapshot = [];
  deterministic_columns = λ t y. codes "domain" ∷ [];
  thresholds = λ t y. record {
    auto_apply_threshold = some 9200;
    review_lower_bound = some 7500;
    weights = [];
  };
}

abbrev identity_digest : Digest
identity_digest s = s

resolve_signals-IsBanded_example :
    IsBanded
      (er_index.thresholds tenant (codes "company"))
      true
      (known_id none)
      (known_id (run_signal_a identity_digest er_index tenant (codes "company") fields))
      (run_signal_b score candidate_ids)
      (resolve_signals identity_digest er_index tenant
        (codes "company")
        fields
        score
        candidate_ids
        true
        none)
resolve_signals-IsBanded_example =
    resolve_signals-IsBanded identity_digest er_index tenant (codes "company") fields score
      candidate_ids true none

-- With a driver the best candidate, "b" at 8000, is in the review band.
driver_run :
    resolve_signals identity_digest er_index tenant
      (codes "company")
      fields
      score
      candidate_ids
      true
      none
    ≡ type_error
unfolding resolve_signals sort_by keep dict_get text_eq
driver_run = refl

abbrev outcome : Outcome
outcome = record {
  key = record {
    tenant_id = tenant;
    connector_id = codes "erp";
    source_table = codes "companies";
    source_record_id = codes "9";
  };
  source_system = codes "erp";
  cdm_entity_id = codes "n";
  cdm_entity_type = codes "company";
  er_confidence = 8000;
  er_resolution_method = codes "review_band";
  er_is_provisional = true;
  er_review_peer_cdm_id = codes "b";
  breakdown = [];
}

abbrev no_rows : Database
no_rows = record { golden = []; index = []; provenance = []; redirects = []; reviews = []; now = 1 }
