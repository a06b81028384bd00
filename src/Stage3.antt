-- ===== src/Stage3.antt =====
-- nexus_spark_lib/transform/stage3_synthesise.py: golden record synthesis.
pub mod Context
pub mod Elect
pub mod Evaluate
pub mod Synthesise
pub mod SourceDelete
pub mod Projection
mod Examples
mod ProjectionExamples
