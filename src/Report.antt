-- ===== src/Report.antt =====
-- From the observations to the stored and the compared findings: cryptiq/app/engine/evidence,
-- cryptiq/app/engine/fingerprints, cryptiq/app/engine/pipeline.py, cryptiq/app/services/persistence.py
-- and cryptiq/app/cli/diff.py.
pub mod Evidence
pub mod Fingerprint
pub mod Pipeline
pub mod Persistence
pub mod Listing
pub mod Diff
mod Tests
