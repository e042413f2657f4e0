-- ===== src/Server.antt =====
-- src/server: the server's parts, from the receive buffer up to the event loop.
pub mod MessageHandler
pub mod Connection
pub mod Io
pub mod Manager
pub mod Timers
pub mod Authorization
pub mod Console
pub mod State
pub mod Login
pub mod Events
pub mod Run
pub mod Moves
pub mod Lifecycle
pub mod Start
pub mod Wakes
