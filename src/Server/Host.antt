-- ===== src/Server/Host.antt =====
-- src/server.c, `create_client` and `destroy_client`, with what the server needs from the system and
-- the list of what it does to it. Effects are listed in the order in which they happen.
use mach_ipc.Base.{ℕ, Bool, true, Option, List, [], ◌∷◌, ◌++◌, ℤ, ◌==◌, if◌then◌else◌}
use mach_ipc.Deadline.{Timespec}
use mach_ipc.Protocol.Types.{KernReturn, Message, port_null}
use mach_ipc.Protocol.Send.{Sent}
use mach_ipc.Protocol.Receive.{Received}
use mach_ipc.Server.Clients.{Client, Table}

-- `create` is what `calloc` and `dispatch_queue_create` give for a new client: its address, or `none`
-- if either fails. `request_notification` asks for a dead-name notification for a port. The last two
-- are whether the callbacks are set.
pub record Host : Type 0 where
  pub mach_msg : Message → KernReturn
  pub now : Timespec
  pub create : Table → Option ℕ
  pub request_notification : ℕ → KernReturn
  pub on_connected : Bool
  pub on_disconnected : Bool

-- The callbacks and the handling of a user's message are blocks on the client's queue.
pub data Effect : Type 0 where
  sent : Sent → Effect
  queue_released port_deallocated client_freed : ℕ → Effect
  connected disconnected : Client → (slot : ℤ) → Effect
  queued : Client → Received → Effect

abbrev pub create_client : (address id port : ℕ) → Client
create_client address id port = record { address = address; id = id; port = port; active = true }

-- The queue is drained before it is released.
unfoldable pub destroy_client : Client → List Effect
destroy_client c =
    queue_released c.address
    ∷ ((if c.port == port_null then [] else port_deallocated c.port ∷ [])
        ++ (client_freed c.address ∷ []))
