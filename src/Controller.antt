-- ===== src/Controller.antt =====
-- internal/controller: the controller of the standalone program.
pub mod Accounts
pub mod State
pub mod Local
pub mod Sound
pub mod Edits
pub mod Tests
