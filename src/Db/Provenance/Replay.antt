-- ===== src/Db/Provenance/Replay.antt =====
-- About `apply_synthesis_result` of db/golden_records.py.
use nexus_spark_lib.Base.{Text, ◌≡◌, Option, none, All}
use nexus_spark_lib.Models.Survivorship.{SynthesisResult}
use nexus_spark_lib.Db.Rows.{GrpRow, Database}
use nexus_spark_lib.Db.Provenance.{Applied, applied, value_error, undefined_column}
use nexus_spark_lib.Db.Provenance.Settled.{IsSettled}

-- What the first application may come to.
abbrev pub IsOnce :
    Option (GrpRow → Text) → SynthesisResult → Database → Applied → Database → Type 0
IsOnce source_system result db applied once =
    All (λ r. IsSettled r once.provenance) result.rows_to_upsert
IsOnce source_system result db undefined_column once =
    All (λ r. IsSettled r once.provenance) result.rows_to_upsert × (source_system ≡ none)
IsOnce source_system result db value_error once = once ≡ db
