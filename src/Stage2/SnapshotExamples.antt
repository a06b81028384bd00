-- ===== src/Stage2/SnapshotExamples.antt =====
-- Runs of the theorems on the snapshot of the index.
use nexus_spark_lib.Base.{
  upsert, update_where, delete_where, Text, ℕ, ◌≡◌, refl, inr, true, false, none, some, [], ◌∷◌,
  List, codes, text_eq, dict_get, select, any, all,
}
use nexus_spark_lib.Stage3.Context.{array}
use nexus_spark_lib.Hashing.{Digest}
use nexus_spark_lib.Hashing.Keys.{all-NoNul}
use nexus_spark_lib.Db.Rows.{Database}
use nexus_spark_lib.Db.ErIndex.{SourceKey, Entry, entity_of, row_entity}
use nexus_spark_lib.Stage2.Persist.{Outcome}
use nexus_spark_lib.Stage2.ForeignKeys.{RecordKey, find_entity_by_source_record}
use nexus_spark_lib.Stage2.Rows.{ResolveRow, resolve_row}
use nexus_spark_lib.Stage2.Rows.Placed.{KeepsId}
use nexus_spark_lib.Stage2.Snapshot.{IdColumn, load_er_index_snapshot}
use nexus_spark_lib.Stage2.Snapshot.Served.{source_key, IsPlain}
use nexus_spark_lib.Stage2.Snapshot.Writes.{
  IndexWrite, put_entries, drop_source, move_entity, write_all, write_all_served,
}
use nexus_spark_lib.Stage2.Snapshot.Persisted.{next_index, resolve_row-persisted}
use nexus_spark_lib.Stage2.Snapshot.Records.{is_record, load_er_index_snapshot-records}

abbrev first : SourceKey
first = record {
  tenant_id = codes "t";
  connector_id = codes "crm";
  source_table = codes "contacts";
  source_record_id = codes "1";
}

abbrev second : SourceKey
second = record first { source_record_id = codes "2" }

plain : (n : Text) → IsPlain (record first { source_record_id = n })
unfolding all
plain n = (
  all-NoNul (codes "t") refl,
  all-NoNul (codes "crm") refl,
  all-NoNul (codes "contacts") refl,
  refl,
)

abbrev entry : SourceKey → Text → Entry
entry key id = record {
  key = key;
  source_system = codes "sf";
  cdm_entity_id = id;
  cdm_entity_type = codes "person";
  confidence = 10000;
  method = codes "deterministic";
  provisional = false;
}

abbrev empty : Database
empty = record { golden = []; index = []; provenance = []; redirects = []; reviews = []; now = 7 }

-- Two sources, the second one moved from `h` to `g`, and the first one dropped.
abbrev writes : List IndexWrite
writes =
    put_entries (entry first (codes "g") ∷ entry second (codes "h") ∷ [])
    ∷ move_entity (codes "t") (codes "h") (codes "g")
    ∷ drop_source first
    ∷ []

abbrev columns : List IdColumn
columns =
    record {
      tenant_id = codes "t";
      cdm_entity_type = codes "person";
      attribute_name = codes "email";
    }
    ∷ []

second_is_g : entity_of second (write_all writes empty) ≡ some (codes "g")
unfolding entity_of write_all text_eq select delete_where update_where upsert
second_is_g = refl

write_all_served_example :
    dict_get
      (source_key second)
      (load_er_index_snapshot columns [] (write_all writes empty)).snapshot
    ≡ entity_of second (write_all writes empty)
write_all_served_example =
    write_all_served columns [] writes empty
      ((plain (codes "1"), (plain (codes "2"), tt)), (tt, (tt, tt))) tt second (plain (codes "2"))

abbrev outcome : Outcome
outcome = record {
  key = second;
  source_system = codes "sf";
  cdm_entity_id = codes "h";
  cdm_entity_type = codes "person";
  er_confidence = 10000;
  er_resolution_method = codes "new";
  er_is_provisional = false;
  er_review_peer_cdm_id = [];
  breakdown = codes "{}";
}

abbrev digest : Digest
digest s = codes "#"

abbrev no_score : Text → ℕ
no_score id = 0

-- The source of the outcome once more, in the next batch.
abbrev row : ResolveRow
row = record {
  tenant_id = codes "t";
  cdm_entity_type = codes "person";
  connector_id = codes "crm";
  source_system = codes "sf";
  source_table = codes "contacts";
  source_record_id = codes "2";
  source_op = codes "UPDATE";
  fields = [];
  changed = array [];
  materialization_level = codes "hot";
  blocking_key = some (codes "k");
}

resolve_row-persisted_example :
    KeepsId digest
      (next_index columns [] empty outcome true)
      no_score
      []
      none
      row
      (codes "h")
      (resolve_row digest (next_index columns [] empty outcome true) no_score [] none row)
unfolding resolve_row text_eq any
resolve_row-persisted_example =
    resolve_row-persisted columns [] empty outcome true digest no_score [] none row tt refl
      (plain (codes "2")) refl refl (inr refl)

abbrev record_of_second : RecordKey
record_of_second = record {
  tenant_id = codes "t";
  cdm_entity_type = codes "person";
  source_system = codes "sf";
  source_record_id = codes "2";
}

load_er_index_snapshot-records_example :
    find_entity_by_source_record record_of_second
      (load_er_index_snapshot columns [] (write_all writes empty)).source_records_by_entity
    ≡ row_entity (select (is_record record_of_second) (write_all writes empty).index)
load_er_index_snapshot-records_example =
    load_er_index_snapshot-records columns [] (write_all writes empty) record_of_second

record_is_g :
    find_entity_by_source_record record_of_second
      (load_er_index_snapshot columns [] (write_all writes empty)).source_records_by_entity
    ≡ some (codes "g")
unfolding load_er_index_snapshot find_entity_by_source_record write_all text_eq delete_where
    update_where upsert
record_is_g = refl
