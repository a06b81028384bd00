-- ===== src/Stage1.antt =====
-- nexus_spark_lib/transform/stage1_normalise.py: the normalisation of raw records.
pub mod Values
pub mod Fields
pub mod Blocking
pub mod Rows
pub mod Batch
mod Examples
