-- ===== src/Minion/Network.antt =====
-- minion/network/: the addresses and labels of the containers.
pub mod Store
pub mod Worker
pub mod Ips
mod Tests
