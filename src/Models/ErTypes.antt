-- ===== src/Models/ErTypes.antt =====
-- nexus_spark_lib/models/er_types.py: the domain types of entity resolution.
use nexus_spark_lib.Base.{Text, codes}

-- The members of `ResolutionMethod`, and the names that db/resolve_persist.py passes through.
abbrev pub method_deterministic : Text
method_deterministic = codes "spark_deterministic"

abbrev pub method_probabilistic : Text
method_probabilistic = codes "spark_probabilistic"

abbrev pub method_graph : Text
method_graph = codes "spark_graph"

abbrev pub method_human : Text
method_human = codes "human"

abbrev pub method_merge_inheritance : Text
method_merge_inheritance = codes "merge_inheritance"

pub data GoldenRecordState : Type 0 where
  active provisional superseded tombstoned : GoldenRecordState

pub data ErOperation : Type 0 where
  op_upsert op_merge op_supersede op_remove op_relevel : ErOperation
