-- ===== src/Db.antt =====
-- nexus_spark_lib/db: the tables of the schema nexus_system and the operations on them.
pub mod Rows
pub mod Chain
pub mod GoldenRecords
pub mod Provenance
pub mod ErIndex
pub mod Redirects
pub mod Settings
pub mod Prewarm
mod Examples
mod SettingExamples
