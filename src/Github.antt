-- ===== src/Github.antt =====
-- The repository host: cryptiq/app/integrations/github.
pub mod Validator
mod Tests
