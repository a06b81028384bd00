-- ===== src/Backfill.antt =====
-- The planning of backfills: nexus_spark_lib/backfill_windows.py.
pub mod Windows
mod Examples
