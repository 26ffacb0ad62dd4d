-- ===== src/Secret.antt =====
-- internal/secret: the store of passphrases and passwords.
pub mod Store
pub mod Memory
mod Tests
