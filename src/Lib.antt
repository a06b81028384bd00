-- ===== src/Lib.antt =====
-- nexus-spark-lib: the golden record pipeline of the NEXUS platform.
--
-- Raw records get a tier (Stage 0), are normalised (Stage 1) and resolved to golden records (Stage 2),
-- and the attributes of a golden record are chosen among its sources (Stage 3). The database keeps
-- golden records with their states and successors, the index from source records to golden records,
-- provenance, redirects and the queue of reviews. A batch reads the tables through snapshots that a
-- manager broadcasts and refreshes. A policy gives records their tier, and backfills read bounded
-- windows.
--
-- Where each part is modelled (paths within nexus_spark_lib/):
-- - Models/ErTypes, Models/Survivorship: models/er_types.py and survivorship.py.
-- - Models/Materialization: models/materialization.py, the choice of a rule
--   (`evaluate`) and the assignments before it.
-- - Models/Predicate: _eval_predicate and _split_top_level of the same file, on fuel: one step more
--   than the predicate has characters, since the parts of an expression are shorter than it. The
--   tests at the leaves are an argument.
-- - Models/Fx: models/fx.py, which rate a conversion uses; the amount is not modelled.
-- - Models/EntityStore: models/entity_store_presence.py and the cached reader of
--   db/entity_store_presence.py; the row that a query finds is an argument.
-- - Hashing: _internal/hash_utils.py. The hex digest of SHA-256 is an argument.
-- - Db/Rows, Db/GoldenRecords, Db/Provenance, Db/ErIndex, Db/Redirects: db/golden_records.py,
--   er_index.py and redirects.py. The tables are lists of rows in one `Database`; a coroutine over a
--   connection is an `Action`, a function from the tables to its result and the tables afterwards;
--   statements are `select`, `upsert`, `update_where` and `delete_where` of Base/Table. NOW() is one
--   instant. The column source_system, which a deletion reads, is an argument: `none` for a table that
--   lacks it.
-- - Db/Chain: the loops of resolve_successor and resolve_redirect, on fuel. The fuel is one step more
--   than there are rows, which is enough since the loop stops at a row that it has visited.
-- - Stage2/StateMachine, Stage2/Crud, Stage2/Persist: state_machine.py and crud_propagation.py of
--   transform/stage2_resolve, and db/resolve_persist.py.
-- - Stage2/Cold: `persist_cold_er_rows` of transform/pipeline.py.
-- - Stage2/Gate: transform/stage2_resolve/materialization_gate.py with db/er_index_lookup.py.
-- - Stage2/Signals, Stage2/Outcomes, Stage2/Resolve: the signals, er_outcomes.py and
--   resolve_record.py of transform/stage2_resolve. The score of a candidate is an argument; the call
--   of signal C in the review band is the TypeError that it raises.
-- - Stage3/Context, Elect, Evaluate, Synthesise, SourceDelete: transform/stage3_synthesise.py. The
--   stores of SynthesisContext are an interface, a record of operations on a state `S`, and what the
--   code relies on is the records of laws `IsStore`, for the hash, and `IsProvenanceStore`.
-- - Stage3/Projection: `_synthesise_dataframe` of the same file, one row at a time, and the UDF
--   `_compute_provenance_hash_udf`.
-- - Stage0: transform/stage0_materialization.py, `_gate` of one record and `drop_cold`.
-- - Stage1/Values, Fields, Blocking, Rows, Batch: transform/stage1_normalise.py. Numbers, dates and
--   lists in JSON are read by the interface `Python`; the conversion of currencies is an argument.
-- - Stage2/Rows: `_resolve_udf` of transform/stage2_resolve/__init__.py; the lift of signal C is an
--   argument.
-- - Stage2/ForeignKeys: transform/fk_target_resolution.py.
-- - Stage2/Broadcast: models/er_resolve_index.py, db/er_broadcast_loader.py, and the blocking by
--   telephone of transform/stage2_resolve/lsh/blocking.py.
-- - Stage2/Snapshot: `load_er_index_snapshot` of db/er_index.py, which turns the tables of Db into the
--   index of a batch, with the deterministic columns of db/survivorship_rules.py.
-- - Db/Settings, Db/Settings/Rules, Stage2/Snapshot/Limits: the loaders of db/survivorship_rules.py. A
--   ValueError for an unknown level or type is `none`; a table is given by its rows.
-- - Db/Prewarm: `prewarm` of er/lookup_client.py. The batches are read on fuel, one round more than
--   there are rows, which is enough since a batch has a row at least.
-- - Broadcast: broadcast/manager.py. The broadcasts hold what the loaders of Db/Settings return.
-- - Backfill/Windows: backfill_windows.py. A date is the number of its day; shifts by
--   months (dateutil) are the interface `Calendar` with the laws `IsCalendar`.
--
-- Representation: a str is the list of its code points; confidences and scores are numbers of
-- ten-thousandths; an instant is a number; a missing value and NULL are `none`. Case is folded for
-- ASCII letters only, and an int of a window length is read from digits alone. Day 1 is the first and
-- day 3652059 the last date. A policy's priority is not negative.
--
-- Not modelled: Spark's plumbing of columns, Kafka, Airflow and Neo4j calls, logging and metrics, the
-- parsing of JSON, MinHash and the similarity of texts, and the orchestration of backfills.
pub mod Base
pub mod Models
pub mod Hashing
pub mod Db
pub mod Broadcast
pub mod Stage2
pub mod Stage3
pub mod Stage0
pub mod Stage1
pub mod Backfill
