-- ===== src/Client.antt =====
-- src/client: the client's parts, from the receive buffer up to the event loop.
pub mod MessageHandler
pub mod Connection
pub mod Io
pub mod Authorization
pub mod State
pub mod Session
pub mod Events
pub mod Sockets
pub mod Lifecycle
