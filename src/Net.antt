-- ===== src/Net.antt =====
-- The network crate: the frames of the wire protocol (net/src/frame.rs), the handlers of the server
-- (net/src/server.rs) and the connections (net/src/connection.rs).
pub mod Error
pub mod Frame
pub mod Payload
pub mod Server
pub mod Connection
