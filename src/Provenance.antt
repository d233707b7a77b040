-- ===== src/Provenance.antt =====
-- The C tokens of a source text and the functions in them: fragma/provenance.py.
pub mod Scan
pub mod Lex
pub mod Extract
mod Tests
