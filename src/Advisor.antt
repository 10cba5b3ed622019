-- ===== src/Advisor.antt =====
-- The context-aware migration advisor: cryptiq/app/engine/context and
-- cryptiq/app/services/context_advisor.py.
pub mod Models
pub mod Profile
pub mod Tokens
pub mod Clues
pub mod Extractor
pub mod Guardrails
pub mod Heuristics
pub mod Service
mod Tests
