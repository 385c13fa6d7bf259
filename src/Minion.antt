-- ===== src/Minion.antt =====
-- minion/: the program that runs on every machine.
pub mod Policy
pub mod Docker
pub mod Server
pub mod Scheduler
pub mod Supervisor
pub mod Network
pub mod Elector
mod Tests
