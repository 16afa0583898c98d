-- ===== src/Ticketing.antt =====
-- src/ticketing.rs: the stock of an event's tickets.
pub mod Tables
pub mod Inventory
pub mod Covered
pub mod Configured
