-- ===== src/Protocol.antt =====
-- src/internal.h and src/protocol.c: the messages, their sending and their receipt.
pub mod Types
pub mod Send
pub mod Ack
pub mod WithAck
pub mod Receive
pub mod Calls
mod Tests
