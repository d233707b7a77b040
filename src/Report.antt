-- ===== src/Report.antt =====
-- The evaluation of one target's reports: fragma/report.py.
pub mod Rows
pub mod Goals
pub mod Aliases
pub mod Diagnostics
pub mod Target
pub mod Wp
pub mod Eva
pub mod Dependencies
pub mod Native
pub mod Evaluate
mod Tests
