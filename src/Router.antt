-- ===== src/Router.antt =====
-- src/router.rs: the commands of a WebSocket and the handlers of the HTTP routes.
pub mod App
pub mod Delta
pub mod Ws
pub mod Trim
pub mod Http
pub mod Routes
pub mod Serve
pub mod Sync
pub mod Socket
pub mod Server
