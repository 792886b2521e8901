-- ===== src/Connections.antt =====
-- The transports of connections/.
pub mod Endpoint
pub mod Lock
pub mod Serial
pub mod Http
pub mod WebSocket
pub mod Framing
pub mod Outcome
pub mod Bodies
