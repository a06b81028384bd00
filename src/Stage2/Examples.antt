-- ===== src/Stage2/Examples.antt =====
-- Runs of the Stage 2 theorems on two records, of which the first has one source.
use nexus_spark_lib.Base.{
  Text, ◌+◌, ◌≡◌, refl, ◌⊎◌, true, false, Option, none, some, List, [], ◌∷◌, codes, any, count_of,
  text_eq, select,
}
use nexus_spark_lib.Models.ErTypes.{op_merge, op_remove, active, superseded, tombstoned}
use nexus_spark_lib.Db.Rows.{GoldenRow, ErRow, GrpRow, Database}
use nexus_spark_lib.Db.GoldenRecords.{
  state_of, successor_of, resolve_successor, is_provenance_of, is_source_of,
  get_golden_record_state,
}
use nexus_spark_lib.Db.ErIndex.{SourceKey, Entry, entity_of, is_mapped_to}
use nexus_spark_lib.Db.ErIndex.Mapping.{Differ}
use nexus_spark_lib.Db.Redirects.{redirect_of}
use nexus_spark_lib.Stage2.StateMachine.Links.{
  Event, created, merged_into, deleted, IsLinked, run, run-IsLinked,
}
use nexus_spark_lib.Stage2.Crud.{propagate_merge, propagate_delete}
use nexus_spark_lib.Stage2.Crud.Insert.{target_state}
use nexus_spark_lib.Stage2.Crud.Delete.{
  IsSettled, deletion, propagate_delete_indexed, propagate_delete_unindexed,
}
use nexus_spark_lib.Stage2.Crud.Merge.{after_merge, propagate_merge_links, propagate_merge_repoints}
use nexus_spark_lib.Stage2.Crud.Split.{split, propagate_resolution_split_lem}

abbrev a : Text
a = codes "a"

abbrev b : Text
b = codes "b"

abbrev tenant : Text
tenant = codes "t"

abbrev person : Text
person = codes "person"

abbrev key : SourceKey
key = record {
  tenant_id = tenant;
  connector_id = codes "crm";
  source_table = codes "contacts";
  source_record_id = codes "1";
}

abbrev other_key : SourceKey
other_key = record key { source_record_id = codes "2" }

abbrev golden_row : Text → Option Text → GoldenRow
golden_row id successor = record {
  cdm_entity_id = id;
  tenant_id = tenant;
  cdm_entity_type = person;
  state = active;
  successor_id = successor;
  created_at = 1;
  updated_at = 1;
  state_changed_at = 1;
  state_change_reason = none;
}

abbrev index_row : ErRow
index_row = record {
  cdm_entity_id = a;
  tenant_id = tenant;
  connector_id = codes "crm";
  source_system = codes "crm";
  entity_type = person;
  source_table = codes "contacts";
  source_record_id = codes "1";
  cdm_entity_type = person;
  confidence = 10000;
  resolution_method = codes "spark_deterministic";
  resolved_at = 1;
  provisional = false;
}

abbrev provenance_row : GrpRow
provenance_row = record {
  cdm_entity_id = a;
  tenant_id = tenant;
  attribute_name = codes "name";
  winning_connector_id = codes "crm";
  winning_source_table = codes "contacts";
  winning_record_id = codes "1";
  observed_value_hash = codes "h";
  observed_at = codes "2024";
  rule_applied = codes "MOST_RECENT";
}

abbrev tables : Database
tables = record {
  golden = golden_row a none ∷ golden_row b none ∷ [];
  index = index_row ∷ [];
  provenance = provenance_row ∷ [];
  redirects = [];
  reviews = [];
  now = 2;
}

abbrev no_rows : Database
no_rows = record tables { golden = []; index = []; provenance = [] }

-- `b` has been merged into `a`.
abbrev merged_tables : Database
merged_tables = record tables { golden = golden_row a none ∷ golden_row b (some a) ∷ [] }

abbrev entry : Entry
entry = record {
  key = key;
  source_system = codes "crm";
  cdm_entity_id = b;
  cdm_entity_type = person;
  confidence = 9500;
  method = codes "spark_probabilistic";
  provisional = false;
}

propagate_merge_links_example :
    ((propagate_merge tenant person a b tables).0 ≡ op_merge)
    × (state_of a (after_merge tenant person a b tables) ≡ some superseded)
    × (successor_of (after_merge tenant person a b tables).golden a
        ≡ some (resolve_successor b tables).0)
    × (redirect_of (after_merge tenant person a b tables).redirects a
        ≡ some (resolve_successor b tables).0)
propagate_merge_links_example = propagate_merge_links tenant person a b tables

propagate_merge_repoints_example :
    (any (is_mapped_to tenant a) (after_merge tenant person a b tables).index ≡ false)
    × (count_of (is_mapped_to tenant b) (after_merge tenant person a b tables).index
        ≡ count_of (is_mapped_to tenant b) tables.index
          + count_of (is_mapped_to tenant a) tables.index)
unfolding text_eq
propagate_merge_repoints_example = propagate_merge_repoints tenant person a b tables refl

no_rows-IsLinked : IsLinked no_rows
unfolding successor_of get_golden_record_state select
no_rows-IsLinked = record { linked = λ id. refl }

abbrev events : List Event
events =
    created tenant a person (codes "resolve")
    ∷ created tenant b person (codes "resolve")
    ∷ merged_into tenant a b person
    ∷ deleted tenant b person
    ∷ []

run-IsLinked_example : IsLinked (run events no_rows)
run-IsLinked_example = run-IsLinked events no_rows no_rows-IsLinked

propagate_delete_indexed_example :
    IsSettled tenant a tables (deletion key person tables)
    × (entity_of key (deletion key person tables).1 ≡ none)
    × (any
          (is_source_of a tenant (codes "crm") (codes "1"))
          (deletion key person tables).1.provenance
        ≡ false)
    × ((other : SourceKey)
        → Differ key other
        → entity_of other (deletion key person tables).1 ≡ entity_of other tables)
unfolding entity_of select text_eq
propagate_delete_indexed_example = propagate_delete_indexed key person tables a refl

propagate_delete_unindexed_example :
    propagate_delete other_key person tables ≡ ((op_remove, none), tables)
unfolding entity_of select text_eq
propagate_delete_unindexed_example = propagate_delete_unindexed other_key person tables refl

propagate_resolution_split_lem_example :
    (entity_of key (split a entry tables) ≡ some b)
    × (state_of b (split a entry tables) ≡ some (target_state entry (state_of b tables)))
    × (any (is_source_of a tenant (codes "crm") (codes "1")) (split a entry tables).provenance
        ≡ false)
    × ((any (is_provenance_of a tenant) (split a entry tables).provenance ≡ true)
          × (state_of a (split a entry tables) ≡ state_of a tables)
        ⊎ (any (is_provenance_of a tenant) (split a entry tables).provenance ≡ false)
          × (state_of a (split a entry tables) ≡ some tombstoned))
unfolding text_eq
propagate_resolution_split_lem_example = propagate_resolution_split_lem a entry tables refl refl
