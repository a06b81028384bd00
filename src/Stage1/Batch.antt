-- ===== src/Stage1/Batch.antt =====
-- The deduplication of a batch in transform/stage1_normalise.py: row_number over a window that is
-- partitioned by a key and ordered by source_ts, the latest first and NULL last. Of rows with equal
-- times the first of the batch is kept; Spark leaves that choice open.
pub mod Latest
use nexus_spark_lib.Base.{
  Text, Bool, true, false, ◌&&◌, Option, none, some, List, [], ◌∷◌, if◌then◌else◌, text_eq,
  text_ltb,
}
use nexus_spark_lib.Stage1.Rows.{RawRecord}

unfoldable pub texts_eq : List Text → List Text → Bool
texts_eq [] [] = true
texts_eq [] (t ∷ ts) = false
texts_eq (s ∷ ss) [] = false
texts_eq (s ∷ ss) (t ∷ ts) = text_eq s t && texts_eq ss ts

-- The first time is later than the second.
unfoldable pub later_ts : Option Text → Option Text → Bool
later_ts none b = false
later_ts (some a) none = true
later_ts (some a) (some b) = text_ltb b a

module _ {R : Type 0} (key : R → List Text) (source_ts : R → Option Text) where
  abbrev pub same_key : R → R → Bool
  same_key a b = texts_eq (key a) (key b)

  abbrev pub later : R → R → Bool
  later a b = later_ts (source_ts a) (source_ts b)

  -- A row and the rows that are kept of those after it.
  unfoldable pub keep_latest : R → List R → List R
  keep_latest r [] = r ∷ []
  keep_latest r (d ∷ ds) =
      if same_key r d then (if later d r then d else r) ∷ ds else d ∷ keep_latest r ds

  unfoldable pub deduplicate : List R → List R
  unfolding keep_latest texts_eq later_ts
  deduplicate [] = []
  deduplicate (r ∷ rs) = keep_latest r (deduplicate rs)

-- `deduplicate_raw_batch`
abbrev pub raw_key : RawRecord → List Text
raw_key r = r.tenant_id ∷ r.connector_id ∷ r.source_table ∷ r.source_record_id ∷ []

unfoldable pub deduplicate_raw_batch : List RawRecord → List RawRecord
unfolding deduplicate
deduplicate_raw_batch rows = deduplicate raw_key (λ r. r.source_ts) rows
