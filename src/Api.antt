-- ===== src/Api.antt =====
-- internal/api: the chain over HTTP.
pub mod Server
pub mod Handlers
pub mod Router
pub mod Listening
pub mod Conflicts
pub mod Rows
pub mod Routing
pub mod Errors
pub mod Calls
pub mod Effects
pub mod Kept
pub mod Agreement
pub mod Lasting
pub mod Balances
