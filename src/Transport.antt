-- ===== src/Transport.antt =====
-- src/transport: sockets, the server's connections, the client and the server.
pub mod Socket
pub mod Connection
pub mod Client
pub mod Server
