-- ===== src/Server.antt =====
-- src/server.c and the helpers of src/protocol.c that search its client list.
pub mod Clients
pub mod Host
pub mod Connect
pub mod Handler
pub mod Broadcast
pub mod Life
mod Tests
