-- ===== src/Forward.antt =====
-- internal/forward
pub mod Backoff
pub mod DialErrors
pub mod Dial
pub mod KnownHosts
pub mod HostKeyAlgos
pub mod Probe
pub mod Password
pub mod Passphrase
pub mod State
pub mod Tuber
pub mod Tuberer
pub mod Engine
pub mod Instance
pub mod Fixtures
mod Tests
