-- ===== src/Config.antt =====
-- internal/config: the configuration file's data, its validation and its edits.
pub mod Types
pub mod Addr
pub mod Ports
pub mod Names
pub mod Ssh
pub mod Validate
pub mod Prepare
pub mod Patch
pub mod Document
pub mod Resolved
mod Tests
