-- ===== src/Jobs.antt =====
-- Durable jobs: knovaryn/pipeline/jobs and the job tables of the database layer.
mod Tests
pub mod State
pub mod Store
pub mod Sequence
pub mod Events
pub mod Checkpoints
pub mod Budget
pub mod Retry
pub mod Engine
pub mod Gateway
pub mod Worker
