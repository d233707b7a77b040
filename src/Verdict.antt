-- ===== src/Verdict.antt =====
-- How a run's verdict is formed: integrity of the inputs, the companion policy, the summary.
pub mod Integrity
pub mod Evaluation
pub mod Companions
pub mod Run
mod Tests
