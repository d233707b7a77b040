-- ===== src/Suite.antt =====
-- Selection of the targets of a run, and its limits: fragma/suite.py.
pub mod Limits
pub mod Selection
pub mod Routes
pub mod Strategy
mod Tests
