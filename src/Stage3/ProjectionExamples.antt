-- ===== src/Stage3/ProjectionExamples.antt =====
-- A run of the theorem on the DataFrame path on one row.
use nexus_spark_lib.Base.{text_eq, text_ltb, any, sort_by, ◌≡◌, refl, none, some, [], ◌∷◌, codes}
use nexus_spark_lib.Hashing.{Digest}
use nexus_spark_lib.Stage3.Projection.{
  SynthesisRow, objects, project_row, compute_provenance_hash_udf,
}
use nexus_spark_lib.Stage3.Projection.SameHash.{project_row-compute_provenance_hash_udf}

abbrev digest : Digest
digest s = s

abbrev row : SynthesisRow
row = record {
  normalised = objects (
      (codes "name", some (codes "Ann"))
      ∷ (codes "age", none)
      ∷ (codes "city", some (codes "Bern"))
      ∷ []);
  source_system = codes "crm";
  source_record_id = codes "1";
}

summary_run :
    (project_row digest row).provenance_hash_column ≡ codes "sha256:city=1:Bern|name=1:Ann"
unfolding project_row sort_by text_ltb text_eq
summary_run = refl

project_row-compute_provenance_hash_udf_example :
    (project_row digest row).provenance_hash_column
    ≡ compute_provenance_hash_udf digest
        (project_row digest row).attribute_provenance
        (project_row digest row).golden_fields
unfolding any
project_row-compute_provenance_hash_udf_example =
    project_row-compute_provenance_hash_udf digest row refl
