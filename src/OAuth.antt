-- ===== src/OAuth.antt =====
-- src/oauth.rs: the routes that connect a user's accounts.
pub mod Webhook
pub mod Endpoints
pub mod Handlers
pub mod Routes
pub mod Manual
pub mod Connections
pub mod Keep
