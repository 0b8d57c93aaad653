-- ===== src/Core.antt =====
-- src/core and the helper that it shares: the messages of a call, the server and the client.
pub mod Protocol
pub mod Server
pub mod Registration
pub mod Client
