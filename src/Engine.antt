-- ===== src/Engine.antt =====
-- The deterministic analysis engine, cryptiq/app/engine.
pub mod Parsed
pub mod Match
pub mod Parser
pub mod Resolution
pub mod Rules
mod Tests
