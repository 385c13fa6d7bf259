-- ===== src/Provider.antt =====
-- provider/: what the clouds have in common.
pub mod Constraint
mod Tests
