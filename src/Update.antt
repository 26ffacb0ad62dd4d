-- ===== src/Update.antt =====
-- internal/update
pub mod Version
