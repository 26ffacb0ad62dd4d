-- ===== src/Importer.antt =====
-- internal/importer: what an import from an ssh configuration adds.
pub mod Plan
pub mod Scan
mod Tests
