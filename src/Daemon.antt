-- ===== src/Daemon.antt =====
-- internal/daemon: the server of the background daemon, and the watcher of its configuration file.
pub mod Server
pub mod Watcher
pub mod UpdateCheck
mod Tests
