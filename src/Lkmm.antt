-- ===== src/Lkmm.antt =====
-- fragma/concurrency_c3_lkmm.py: the calibration of the Linux kernel memory model with herd7.
pub mod Values
pub mod Paths
pub mod Cases
pub mod Pairs
pub mod Kernel
pub mod Provider
pub mod Manifest
pub mod Lines
pub mod Herd
pub mod Source
pub mod Run
pub mod Inventory
mod Samples
mod Tests
