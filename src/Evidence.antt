-- ===== src/Evidence.antt =====
-- The acceptance gate of fragma/concurrency_evidence.py.
pub mod Acceptance
pub mod Drift
mod Tests
