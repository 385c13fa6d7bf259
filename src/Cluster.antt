-- ===== src/Cluster.antt =====
-- cluster/: what keeps the cloud and the minions in step with the database.
pub mod Cloud
pub mod Foreman
mod Tests
