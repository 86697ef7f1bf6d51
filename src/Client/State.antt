-- ===== src/Client/State.antt =====
-- `mach_client` of src/internal.h. The ports, the queue and the thread are variables of the machine,
-- since the resource tracker clears them; callbacks are part of the operations that make them.
use mach_ipc.Base.{ℕ, ◌+◌, Bool, Option, ℤ}
use mach_ipc.Protocol.Receive.{Received}
use mach_ipc.Protocol.WithAck.{Shared}
use mach_ipc.Resources.{Tracker}

pub record MachClient : Type 0 where
  pub address : ℕ
  pub connected : Bool
  pub running : Bool
  pub client_id : ℕ
  pub client_slot : ℤ
  pub ack : Shared
  pub resources : Option Tracker

-- What the user hears of, and the messages that go to the queue.
pub data Notice : Type 0 where
  connection disconnection : Notice
  queued : Received → Notice

-- The addresses of the tracked fields. Only that they are distinct and not null matters.
abbrev pub server_port_at : ℕ → ℕ
server_port_at address = address + 1

abbrev pub local_port_at : ℕ → ℕ
local_port_at address = address + 2

abbrev pub message_queue_at : ℕ → ℕ
message_queue_at address = address + 3

abbrev pub receiver_thread_at : ℕ → ℕ
receiver_thread_at address = address + 4

abbrev pub ack_pool_at : ℕ → ℕ
ack_pool_at address = address + 5

abbrev pub ack_lock_at : ℕ → ℕ
ack_lock_at address = address + 6
