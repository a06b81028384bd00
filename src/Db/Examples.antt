-- ===== src/Db/Examples.antt =====
-- Runs of the theorems on the tables and on the lookup keys.
use nexus_spark_lib.Base.{
  keep, false, Bool, Dict, List, refl, map, true, text_eq, Text, suc, ◌≡◌, Option, none, some, [],
  ◌∷◌, codes, length,
}
use nexus_spark_lib.Models.ErTypes.{active}
use nexus_spark_lib.Db.Rows.{GoldenRow, RedirectRow, Database}
use nexus_spark_lib.Models.Survivorship.{most_recent, ProvenanceRow, SynthesisResult}
use nexus_spark_lib.Db.Provenance.{
  Applied, undefined_column, value_error, apply_synthesis_result, put_all, get_all_provenance,
}
use nexus_spark_lib.Db.Prewarm.{CacheRow, is_ambiguous, items_of, prewarm}
use nexus_spark_lib.Db.Prewarm.Warmed.{served, IsWarmed, prewarm-IsWarmed}
use nexus_spark_lib.Db.Chain.{chase, Reaches, IsEnd}
use nexus_spark_lib.Db.GoldenRecords.{successor_of, resolve_successor}
use nexus_spark_lib.Db.GoldenRecords.Upserts.{resolve_successor_ends}

abbrev a : Text
a = codes "a"

abbrev b : Text
b = codes "b"

abbrev golden_row : Text → Option Text → GoldenRow
golden_row id successor = record {
  cdm_entity_id = id;
  tenant_id = codes "t";
  cdm_entity_type = codes "person";
  state = active;
  successor_id = successor;
  created_at = 1;
  updated_at = 1;
  state_changed_at = 1;
  state_change_reason = none;
}

abbrev redirect : Text → Text → RedirectRow
redirect source target = record {
  from_cdm_entity_id = source;
  to_cdm_entity_id = target;
  tenant_id = codes "t";
  created_at = 1;
}

-- `a` and `b` point at each other.
abbrev tables : Database
tables = record {
  golden = golden_row a (some b) ∷ golden_row b (some a) ∷ [];
  index = [];
  provenance = [];
  redirects = redirect a b ∷ redirect b a ∷ [];
  reviews = [];
  now = 2;
}

resolve_successor_ends_example :
    (r : Text) × (chase (successor_of tables.golden) (suc (length tables.golden)) [] a ≡ some r)
    × ((resolve_successor a tables).0 ≡ r)
    × Reaches (successor_of tables.golden) a r
    × IsEnd (successor_of tables.golden) r
resolve_successor_ends_example = resolve_successor_ends a tables

abbrev won : Text → Text → ProvenanceRow
won attribute_name connector_id = record {
  cdm_entity_id = a;
  attribute_name = attribute_name;
  winning_connector_id = connector_id;
  winning_source_table = codes "contacts";
  winning_record_id = codes "1";
  observed_value_hash = codes "#";
  observed_at = codes "2024-01-01";
  rule_applied = most_recent;
}

-- Two attributes are won, and a third one has lost its source.
abbrev synthesis : SynthesisResult
synthesis = record {
  cdm_entity_id = a;
  rows_to_upsert = won (codes "email") (codes "crm") ∷ won (codes "name") (codes "crm") ∷ [];
  rows_to_delete = (a, codes "phone", codes "crm") ∷ [];
  provenance_hash = [];
  hash_changed = true;
  contributing_sources = codes "crm" ∷ [];
  attribute_provenance = [];
}

-- Every text is a time, and the connector stands for the column that the deletion reads.
abbrev applied_to : Database → Applied × Database
applied_to db =
    apply_synthesis_result (λ s. some s) (some λ row. row.winning_connector_id) synthesis
      (codes "t") db

-- Without the column the deletion fails after the upserts; with an empty time nothing is written.
missing_column :
    (apply_synthesis_result (λ s. some s) none synthesis (codes "t") tables).0 ≡ undefined_column
unfolding apply_synthesis_result
missing_column = refl

empty_time :
    apply_synthesis_result
      (λ s. some s)
      none
      (record synthesis {
        rows_to_upsert =
            record (won (codes "email") (codes "crm")) { observed_at = codes " " } ∷ [];
      })
      (codes "t")
      tables
    ≡ (value_error, tables)
unfolding apply_synthesis_result
empty_time = refl

-- The same record id and value of another connector: the old connector stays.
connector_stays :
    map
      (λ row. row.winning_connector_id)
      (get_all_provenance a (codes "t") (record tables {
        provenance =
            put_all
              (codes "t")
              ((won (codes "email") (codes "crm"), codes "2024-01-01")
                ∷ (won (codes "email") (codes "erp"), codes "2024-01-01")
                ∷ [])
              [];
      })).0
    ≡ codes "crm" ∷ []
unfolding get_all_provenance put_all text_eq
connector_stays = refl

abbrev cache_row : Text → Text → Option Bool → CacheRow
cache_row source_record_id cdm_entity_id is_active = record {
  tenant_id = codes "t";
  connector_id = codes "crm";
  source_record_id = some source_record_id;
  cdm_entity_id = some cdm_entity_id;
  is_active = is_active;
}

-- Two tables have the source id 1, with one entity; a third row is inactive.
abbrev cache_rows : List CacheRow
cache_rows =
    cache_row (codes "1") a none
    ∷ cache_row (codes "1") a (some true)
    ∷ cache_row (codes "2") b none
    ∷ cache_row (codes "2") a (some false)
    ∷ []

-- A newer writer has the source id 2 already.
abbrev old_cache : Dict Text
old_cache = (codes "er:t:crm:2", codes "c") ∷ []

warmed :
    prewarm (codes "t") (codes "crm") 2 cache_rows old_cache
    ≡ some (3, (codes "er:t:crm:2", codes "c") ∷ (codes "er:t:crm:1", a) ∷ [])
unfolding prewarm text_eq keep
warmed = refl

prewarm-IsWarmed_example :
    (after : Dict Text) × (prewarm (codes "t") (codes "crm") 2 cache_rows old_cache
      ≡ some (length (items_of (served (codes "t") (codes "crm") 1 cache_rows old_cache)), after))
    × IsWarmed (codes "t") (codes "crm") 1 cache_rows old_cache after
unfolding is_ambiguous text_eq keep
prewarm-IsWarmed_example =
    prewarm-IsWarmed (codes "t") (codes "crm") 1 cache_rows old_cache refl refl refl
