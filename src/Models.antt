-- ===== src/Models.antt =====
-- nexus_spark_lib/models: the data types that the stages and the database layer share.
pub mod ErTypes
pub mod Survivorship
pub mod Predicate
pub mod Materialization
pub mod EntityStore
pub mod Fx
mod Examples
