-- ===== src/Stage3/Examples.antt =====
-- Runs of the Stage 3 theorems on two sources, over stores that hold one provenance hash.
use nexus_spark_lib.Base.{
  count_of, none, List, Among, Dict, dict_get, keep, text_eq_iff, none-ne-some, arith, Text, ◌≡◌,
  refl, inr, true, false, not, Option, some, [], ◌∷◌, codes, text_eq, text_ltb, upper, to_upper,
  Reordered, sort_by,
}
use nexus_spark_lib.Models.Survivorship.{most_recent, SurvivorshipRule, default_rule, ProvenanceRow}
use nexus_spark_lib.Hashing.{Digest}
use nexus_spark_lib.Stage3.Context.{
  extract_field_value, Scalar, text, plain, array, NormalisedRecord, ResolutionResult, ErIndexEntry,
  SynthesisContext, IsStore, IsProvenanceStore,
}
use nexus_spark_lib.Stage3.Elect.{source_before, re_elect_winner, candidates, winner_row, chosen}
use nexus_spark_lib.Stage3.Elect.Order.{re_elect_winner-Reordered}
use nexus_spark_lib.Stage3.Elect.Elected.{IsElected, re_elect_winner-IsElected}
use nexus_spark_lib.Stage3.Evaluate.{
  completeness, Standing, apply_survivorship_rule, make_provenance_row, evaluate_survivorship,
}
use nexus_spark_lib.Stage3.Evaluate.Ranks.{Sent}
use nexus_spark_lib.Stage3.Evaluate.Sequence.{IsWinner, evaluate_all, row_of, evaluate_all-IsWinner}
use nexus_spark_lib.Stage3.Synthesise.{
  parse_changed_canonical_attributes, present, synthesise_record,
}
use nexus_spark_lib.Stage3.Synthesise.Hash.{synthesise_record_hash}
use nexus_spark_lib.Stage3.Synthesise.Scope.{WritesWithin, synthesise_record_scope}
use nexus_spark_lib.Hashing.Order.{by_key}
use nexus_spark_lib.Stage3.Synthesise.{compute_provenance_hash}
use nexus_spark_lib.Stage3.Synthesise.Order.{compute_provenance_hash-Reordered}
use nexus_spark_lib.Stage3.SourceDelete.{Source, handle_source_delete}
use nexus_spark_lib.Stage3.SourceDelete.Decided.{IsDecided, handle_source_delete_indexed}

abbrev identity_digest : Digest
identity_digest s = s

abbrev name : Text
name = codes "name"

abbrev source : Text → Text → ErIndexEntry
source connector_id source_ts = record {
  connector_id = connector_id;
  source_table = codes "contacts";
  source_record_id = codes "1";
  source_ts = source_ts;
  confidence = 9000;
  completeness_score = 3;
  cdm_entity_id = codes "g";
}

abbrev crm : ErIndexEntry
crm = source (codes "crm") (codes "2024-01")

abbrev erp : ErIndexEntry
erp = source (codes "erp") (codes "2024-02")

abbrev read_name : ErIndexEntry → Option Scalar
read_name s = some (text (codes "Ann"))

abbrev rule : SurvivorshipRule
rule = default_rule (codes "t") (codes "person") name

abbrev winner : ErIndexEntry → ProvenanceRow
winner s = record {
  cdm_entity_id = codes "g";
  attribute_name = name;
  winning_connector_id = s.connector_id;
  winning_source_table = s.source_table;
  winning_record_id = s.source_record_id;
  observed_value_hash = codes "Ann";
  observed_at = s.source_ts;
  rule_applied = most_recent;
}

re_elect_winner-IsElected_example :
    IsElected identity_digest read_name (codes "g") name rule (crm ∷ erp ∷ []) (winner erp)
unfolding re_elect_winner candidates winner_row chosen source_before text_ltb sort_by
re_elect_winner-IsElected_example =
    re_elect_winner-IsElected identity_digest read_name (codes "g") name rule (crm ∷ erp ∷ [])
      (winner erp) refl

swapped : Reordered (source_before most_recent []) (crm ∷ erp ∷ []) (erp ∷ crm ∷ [])
unfolding source_before text_ltb
swapped = Reordered.exchange crm erp [] (inr refl)

re_elect_winner-Reordered_example :
    re_elect_winner identity_digest read_name (codes "g") name (crm ∷ erp ∷ []) rule
    ≡ re_elect_winner identity_digest read_name (codes "g") name (erp ∷ crm ∷ []) rule
re_elect_winner-Reordered_example =
    re_elect_winner-Reordered identity_digest read_name (codes "g") name rule swapped

abbrev incoming : Text → Text → NormalisedRecord
incoming connector_id source_ts = record {
  tenant_id = codes "t";
  cdm_entity_type = codes "person";
  connector_id = connector_id;
  source_table = codes "contacts";
  source_record_id = codes "1";
  source_ts = source_ts;
  canonical_fields = (name, plain (some (text (codes "Ann")))) ∷ [];
  source_op = codes "update";
  cdm_entity_id = codes "g";
  er_confidence = 9000;
  changed_canonical_attributes_json = array (some name ∷ []);
}

-- Each record has one field, and the same confidence.
abbrev stand : ProvenanceRow → Standing
stand row = record { completeness_score = 1; confidence = 9000 }

abbrev first_sent : Sent
first_sent = (incoming (codes "crm") (codes "2024-01"), text (codes "Ann"))

abbrev last_sent : Sent
last_sent = (incoming (codes "erp") (codes "2024-02"), text (codes "Bob"))

evaluate_all-IsWinner_example :
    (w : Sent) × (evaluate_all identity_digest name rule stand (first_sent ∷ last_sent ∷ []) none
      ≡ some (row_of identity_digest name rule stand w))
    × IsWinner rule.rule_type rule.priority_sources (first_sent ∷ last_sent ∷ []) w
unfolding make_provenance_row completeness extract_field_value count_of text_eq
evaluate_all-IsWinner_example =
    evaluate_all-IsWinner identity_digest name rule stand first_sent (last_sent ∷ [])
      ((refl, tt), (tt, tt)) (refl, (refl, tt))

-- The later record wins.
last_wins :
    evaluate_all identity_digest name rule stand (first_sent ∷ last_sent ∷ []) none
    ≡ some (row_of identity_digest name rule stand last_sent)
unfolding evaluate_all evaluate_survivorship apply_survivorship_rule text_ltb text_eq
last_wins = refl

-- Stores that hold one hash: no provenance is read back, and both sources are indexed.
abbrev ctx : SynthesisContext Text
ctx = record {
  get_all = λ s e. (name, winner crm) ∷ [];
  upsert_returning_changed = λ row s. (true, s);
  delete_attribute = λ e a c r s. s;
  delete_all = λ e s. s;
  get_attributes_won_by = λ s e c r. name ∷ [];
  rules = λ t y. [];
  get_hash = λ s e. s;
  update_hash = λ e h s. h;
  tombstone = λ e s. s;
  lookup_source = λ s t c b r. some crm;
  delete_source = λ c b r s. s;
  get_all_for_entity = λ s e. erp ∷ [];
  get_confidence = λ s e c. 9000;
  get_completeness = λ s e c. 3;
  read_attribute = λ s c b r a. some (text (codes "Ann"));
  emit_remove = λ e t s. s;
  emit_upsert = λ e t s. s;
}

ctx-IsStore : IsStore ctx
ctx-IsStore = record {
  hash_written = λ e h s. refl;
  hash_upsert = λ e row s. refl;
  hash_delete = λ e i a c r s. refl;
}

unfoldable rows_by_name : List ProvenanceRow → Dict ProvenanceRow
rows_by_name [] = []
rows_by_name (row ∷ rows) = (row.attribute_name, row) ∷ rows_by_name rows

get-rows_by_name :
    (a : Text) (rows : List ProvenanceRow) (row : ProvenanceRow)
    → dict_get a (rows_by_name rows) ≡ some row
    → row.attribute_name ≡ a
unfolding rows_by_name dict_get
get-rows_by_name a [] row e = absurd (none-ne-some e)
get-rows_by_name a (first ∷ rows) row e =
    ground (arith, text_eq_iff first.attribute_name a, get-rows_by_name a rows row)

get_apart :
    (a : Text) (row : ProvenanceRow) (rows : List ProvenanceRow)
    → ¬ (a ≡ row.attribute_name)
    → dict_get a (rows_by_name (row ∷ rows)) ≡ dict_get a (rows_by_name rows)
unfolding rows_by_name dict_get
get_apart a row rows h = ground (arith, text_eq_iff row.attribute_name a)

get_kept :
    (a b : Text) (rows : List ProvenanceRow)
    → ¬ (a ≡ b)
    → dict_get a (rows_by_name (keep (λ row. not (text_eq row.attribute_name b)) rows))
      ≡ dict_get a (rows_by_name rows)
unfolding rows_by_name dict_get keep
get_kept a b [] h = refl
get_kept a b (row ∷ rows) h =
    ground (
      arith,
      text_eq_iff row.attribute_name a,
      text_eq_iff row.attribute_name b,
      get_kept a b rows h,
    )

abbrev resolution : ResolutionResult
resolution = record {
  cdm_entity_id = codes "g";
  confidence = 9000;
  is_provisional = false;
  is_new_entity = false;
}

abbrev update : NormalisedRecord
update = incoming (codes "erp") (codes "2024-02")

synthesise_record_hash_example :
    ((synthesise_record identity_digest ctx update resolution []).0.provenance_hash
      ≡ (synthesise_record identity_digest ctx update resolution []).1)
    × ((synthesise_record identity_digest ctx update resolution []).0.hash_changed
        ≡ not (text_eq (synthesise_record identity_digest ctx update resolution []).1 []))
synthesise_record_hash_example =
    synthesise_record_hash identity_digest ctx ctx-IsStore update resolution [] refl

-- A store of rows by attribute, for one entity.
abbrev rows_ctx : SynthesisContext (List ProvenanceRow)
rows_ctx = record {
  get_all = λ s e. rows_by_name s;
  upsert_returning_changed = λ row s. (true, row ∷ s);
  delete_attribute = λ e a c r s. keep (λ row. not (text_eq row.attribute_name a)) s;
  delete_all = λ e s. [];
  get_attributes_won_by = λ s e c r. name ∷ [];
  rules = λ t y. [];
  get_hash = λ s e. [];
  update_hash = λ e h s. s;
  tombstone = λ e s. s;
  lookup_source = λ s t c b r. some crm;
  delete_source = λ c b r s. s;
  get_all_for_entity = λ s e. erp ∷ [];
  get_confidence = λ s e c. 9000;
  get_completeness = λ s e c. 3;
  read_attribute = λ s c b r a. some (text (codes "Ann"));
  emit_remove = λ e t s. s;
  emit_upsert = λ e t s. s;
}

rows_ctx-IsProvenanceStore : IsProvenanceStore rows_ctx
rows_ctx-IsProvenanceStore = record {
  stored_name = λ e a row s h. get-rows_by_name a s row h;
  get_upsert = λ e a row s h. get_apart a row s h;
  get_delete = λ e a i b c r s h. get_kept a b s h;
  get_hashed = λ e a i h s. refl;
}

synthesise_record_scope_example :
    WritesWithin identity_digest rows_ctx
      (name ∷ [])
      (synthesise_record identity_digest rows_ctx update resolution (winner crm ∷ [])).0
    × ((e a : Text)
        → ¬ Among a (name ∷ [])
        → dict_get a (
            rows_ctx.get_all
              (synthesise_record identity_digest rows_ctx update resolution (winner crm ∷ [])).1
              e)
          ≡ dict_get a (rows_ctx.get_all (winner crm ∷ []) e))
unfolding parse_changed_canonical_attributes present upper to_upper text_eq
synthesise_record_scope_example =
    synthesise_record_scope identity_digest rows_ctx rows_ctx-IsProvenanceStore update resolution
      (name ∷ []) (winner crm ∷ []) refl

abbrev deleted : Source
deleted = record {
  tenant_id = codes "t";
  cdm_entity_type = codes "person";
  connector_id = codes "crm";
  source_table = codes "contacts";
  source_record_id = codes "1";
}

handle_source_delete_indexed_example :
    IsDecided identity_digest ctx deleted
      (erp ∷ [])
      (name ∷ [])
      (handle_source_delete identity_digest ctx deleted []).0
handle_source_delete_indexed_example =
    handle_source_delete_indexed identity_digest ctx deleted crm [] refl

swapped_rows :
    Reordered by_key
      ((name, winner crm) ∷ (codes "email", winner erp) ∷ [])
      ((codes "email", winner erp) ∷ (name, winner crm) ∷ [])
unfolding text_ltb
swapped_rows = Reordered.exchange (name, winner crm) (codes "email", winner erp) [] (inr refl)

compute_provenance_hash-Reordered_example :
    compute_provenance_hash identity_digest ((name, winner crm) ∷ (codes "email", winner erp) ∷ [])
    ≡ compute_provenance_hash identity_digest
        ((codes "email", winner erp) ∷ (name, winner crm) ∷ [])
compute_provenance_hash-Reordered_example =
    compute_provenance_hash-Reordered identity_digest swapped_rows
