-- ===== src/Coverage.antt =====
-- The check of retained verdicts: fragma/coverage.py.
pub mod Verdicts
mod Tests
