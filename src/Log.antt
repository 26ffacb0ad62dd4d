-- ===== src/Log.antt =====
-- internal/log
pub mod Ring
