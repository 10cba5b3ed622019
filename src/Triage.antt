-- ===== src/Triage.antt =====
-- The stages that judge an observation: cryptiq/app/engine/roles, pqc, impact and priority.
pub mod Role
pub mod Pqc
pub mod Impact
pub mod Priority
pub mod Tables
pub mod Candidates
mod Tests
