-- ===== src/Ingestion.antt =====
-- Getting the source of a commit: cryptiq/app/engine/ingestion.
pub mod Validation
pub mod Revision
pub mod Outcome
pub mod Paths
pub mod Disk
pub mod Archive
pub mod Extract
pub mod Discovery
pub mod Source
mod Tests
