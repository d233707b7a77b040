-- ===== src/Progress.antt =====
-- fragma/concurrency_c3_ipc_refcount.py and fragma/concurrency_c3_llsc_progress.py: the finite
-- models of the compare-and-swap retry loop. The parts stand in the children.
pub mod Schedule
pub mod Enumeration
pub mod Aggregate
pub mod Cycles
pub mod Reservation
mod Tests
