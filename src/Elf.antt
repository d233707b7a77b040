-- ===== src/Elf.antt =====
-- fragma/elf.py: the reader of relocatable ELF objects. The parts stand in the children.
pub mod Bytes
pub mod Types
pub mod Rows
pub mod Parse
pub mod Metadata
pub mod Ranges
pub mod Tables
pub mod Calibration
mod Tests
