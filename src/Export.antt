-- ===== src/Export.antt =====
-- knovaryn/pipeline/export.
mod Tests
pub mod Gate
pub mod Release
pub mod Verify
