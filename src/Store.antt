-- ===== src/Store.antt =====
-- src/store.rs, by the tables that its functions work on.
pub mod Sessions
pub mod Connections
pub mod Events
pub mod Jobs
pub mod Targets
pub mod Operations
