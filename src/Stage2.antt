-- ===== src/Stage2.antt =====
-- nexus_spark_lib/transform/stage2_resolve: entity resolution and its effects on the tables.
pub mod StateMachine
pub mod Crud
pub mod Gate
pub mod Persist
pub mod Signals
pub mod Outcomes
pub mod Resolve
pub mod Rows
pub mod ForeignKeys
pub mod Broadcast
pub mod Snapshot
pub mod Cold
mod Examples
mod RecordExamples
mod RowExamples
mod SnapshotExamples
