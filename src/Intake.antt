-- ===== src/Intake.antt =====
-- knovaryn/infrastructure/intake.
pub mod Archive
pub mod Url
pub mod Ingest
pub mod Paths
