-- ===== src/Db/Provenance.antt =====
-- `apply_synthesis_result` and `get_all_provenance` of nexus_spark_lib/db/golden_records.py. The
-- parsing of a time by datetime.fromisoformat is an argument, and so is the column `source_system` of
-- golden_record_provenance, which the deletion reads and no statement of the file writes: `none` is a
-- table without this column.
pub mod Settled
pub mod Replay
use nexus_spark_lib.Base.{
  Option, none, some, ◌++◌, ◌==◌, strip, Text, Bool, ◌&&◌, ◌||◌, not, List, [], ◌∷◌, codes, keep,
  if◌then◌else◌, text_eq, text_ltb, upsert, delete_where, sort_by,
}
use nexus_spark_lib.Models.Survivorship.{
  SurvivorshipRuleType, most_recent, most_confident, source_priority, most_complete, first_observed,
  manual, longest_value, exact_match, ProvenanceRow, SynthesisResult,
}
use nexus_spark_lib.Db.Rows.{GrpRow, Database, Action, query}
use nexus_spark_lib.Db.GoldenRecords.{is_provenance_of}

-- The value of a SurvivorshipRuleType.
abbrev pub rule_text : SurvivorshipRuleType → Text
rule_text most_recent = codes "most_recent"
rule_text most_confident = codes "most_confident"
rule_text source_priority = codes "source_priority"
rule_text most_complete = codes "most_complete"
rule_text first_observed = codes "first_observed"
rule_text manual = codes "manual"
rule_text longest_value = codes "longest_value"
rule_text exact_match = codes "exact_match"

-- The key of the table.
abbrev pub is_attribute : ProvenanceRow → GrpRow → Bool
is_attribute r row =
    text_eq row.cdm_entity_id r.cdm_entity_id && text_eq row.attribute_name r.attribute_name

-- The row has the winner and the value already: then DO UPDATE … WHERE leaves it.
abbrev pub same_winner : ProvenanceRow → GrpRow → Bool
same_winner r row =
    text_eq row.observed_value_hash r.observed_value_hash
    && text_eq row.winning_record_id r.winning_record_id

-- raw_value.replace("Z", "+00:00")
unfoldable pub replace_z : Text → Text
replace_z [] = []
replace_z (c ∷ s) = if c == b'Z' then codes "+00:00" ++ replace_z s else c ∷ replace_z s

-- `_coerce_observed_at` of a text, with `none` for ValueError; a parsed time has its zone, or UTC.
unfoldable pub coerce_observed_at : (Text → Option Text) → Text → Option Text
unfolding replace_z strip
coerce_observed_at fromisoformat value = elim (strip value) [
  | [] ↦ none
  | c ∷ raw ↦ fromisoformat (replace_z (c ∷ raw))
]

abbrev with_time :
    ProvenanceRow
    → Option Text
    → Option (List (ProvenanceRow × Text))
    → Option (List (ProvenanceRow × Text))
with_time r (some observed_at) (some rest) = some ((r, observed_at) ∷ rest)
with_time r observed_at rest = none

-- The arguments of the statement, a time for each row, before any of them is executed.
unfoldable pub coerce_rows :
    (Text → Option Text) → List ProvenanceRow → Option (List (ProvenanceRow × Text))
unfolding coerce_observed_at
coerce_rows fromisoformat [] = some []
coerce_rows fromisoformat (r ∷ rs) =
    with_time r (coerce_observed_at fromisoformat r.observed_at) (coerce_rows fromisoformat rs)

module _ (tenant_id : Text) where
  abbrev pub inserted : ProvenanceRow → Text → GrpRow
  inserted r observed_at = record {
    cdm_entity_id = r.cdm_entity_id;
    tenant_id = tenant_id;
    attribute_name = r.attribute_name;
    winning_connector_id = r.winning_connector_id;
    winning_source_table = r.winning_source_table;
    winning_record_id = r.winning_record_id;
    observed_value_hash = r.observed_value_hash;
    observed_at = observed_at;
    rule_applied = rule_text r.rule_applied;
  }

  abbrev pub overwritten : ProvenanceRow → Text → GrpRow → GrpRow
  overwritten r observed_at row = if same_winner r row then row else record row {
    winning_connector_id = r.winning_connector_id;
    winning_source_table = r.winning_source_table;
    winning_record_id = r.winning_record_id;
    observed_value_hash = r.observed_value_hash;
    observed_at = observed_at;
    rule_applied = rule_text r.rule_applied;
  }

  abbrev pub put : ProvenanceRow → Text → List GrpRow → List GrpRow
  put r observed_at rows =
      upsert (is_attribute r) (overwritten r observed_at) (inserted r observed_at) rows

  unfoldable pub put_all : List (ProvenanceRow × Text) → List GrpRow → List GrpRow
  unfolding upsert
  put_all [] rows = rows
  put_all ((r, observed_at) ∷ rs) rows = put_all rs (put r observed_at rows)

module _ (source_system : GrpRow → Text) where
  -- WHERE cdm_entity_id = $1 AND attribute_name = $2 AND source_system = $3
  abbrev pub is_deleted : Text × Text × Text → GrpRow → Bool
  is_deleted (entity_id, attr, source) row =
      text_eq row.cdm_entity_id entity_id
      && (text_eq row.attribute_name attr && text_eq (source_system row) source)

  unfoldable pub delete_all : List (Text × Text × Text) → List GrpRow → List GrpRow
  unfolding delete_where
  delete_all [] rows = rows
  delete_all (d ∷ ds) rows = delete_all ds (delete_where (is_deleted d) rows)

-- Applied; or the ValueError of a time; or the error of a deletion by a column that is not there.
pub data Applied : Type 0 where
  applied value_error undefined_column : Applied

-- The deletions, if there are any.
unfoldable pub delete_rows :
    Option (GrpRow → Text) → List (Text × Text × Text) → List GrpRow → Applied × List GrpRow
unfolding delete_all
delete_rows source_system [] rows = (applied, rows)
delete_rows none (d ∷ ds) rows = (undefined_column, rows)
delete_rows (some source_system) (d ∷ ds) rows = (applied, delete_all source_system (d ∷ ds) rows)

-- The upserts with these arguments, and then the deletions.
unfoldable pub write_rows :
    Option (GrpRow → Text)
    → List (Text × Text × Text)
    → Text
    → Option (List (ProvenanceRow × Text))
    → Action Applied
unfolding put_all delete_rows
write_rows source_system deletions tenant_id none db = (value_error, db)
write_rows source_system deletions tenant_id (some arguments) db =
    let (outcome, rows) =
      delete_rows source_system deletions (put_all tenant_id arguments db.provenance) in
    (outcome, record db { provenance = rows })

module _ (fromisoformat : Text → Option Text) (source_system : Option (GrpRow → Text)) where
  unfoldable pub apply_synthesis_result : SynthesisResult → Text → Action Applied
  unfolding write_rows coerce_rows
  apply_synthesis_result result tenant_id db =
      write_rows source_system result.rows_to_delete tenant_id
        (coerce_rows fromisoformat result.rows_to_upsert) db

-- ORDER BY attribute_name, winning_connector_id
abbrev before : GrpRow → GrpRow → Bool
before a b =
    text_ltb a.attribute_name b.attribute_name
    || (text_eq a.attribute_name b.attribute_name
        && text_ltb a.winning_connector_id b.winning_connector_id)

-- A row of the table stands for its ProvenanceRow.
unfoldable pub get_all_provenance : Text → Text → Action (List GrpRow)
unfolding sort_by keep
get_all_provenance cdm_entity_id tenant_id =
    query (λ db. sort_by before (keep (is_provenance_of cdm_entity_id tenant_id) db.provenance))
