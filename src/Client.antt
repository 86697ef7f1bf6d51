-- ===== src/Client.antt =====
-- src/client.c: the client's state, its life, its connection and the handler of its receive loop.
pub mod State
pub mod Life
pub mod Connect
pub mod Handler
mod Tests
