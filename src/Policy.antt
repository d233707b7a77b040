-- ===== src/Policy.antt =====
-- The closed analysis policy, and the check of the commands that were run: fragma/analysis_policy.py.
pub mod Texts
pub mod Model
pub mod Pipeline
pub mod Command
pub mod Actual
mod Tests
