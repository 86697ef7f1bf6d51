-- ===== src/Client/Connect.antt =====
-- src/client.c, `mach_client_connect`.
pub mod Results
pub mod Laws
pub mod Success
use mach_ipc.Base.{
  ℕ, Bool, true, false, Option, none, some, ◌>>=◌, List, [], ◌∷◌, ◌++◌, ℤ, pos, minus_one, eq_ℤ,
  ◌==◌, if◌then◌else◌,
}
use mach_ipc.MsgId.{msg_id_connect}
use mach_ipc.Protocol.Types.{
  KernReturn, success, is_success, Payload, sizeof_payload, Buffer, ipc_success,
  ipc_error_invalid_param, ipc_error_not_connected, ipc_error_internal,
}
use mach_ipc.Protocol.Send.{no_deadline}
use mach_ipc.Protocol.Ack.{Incoming}
use mach_ipc.Protocol.WithAck.{
  Environment, Outcome, returned, waits_forever, protocol_send_with_ack,
}
use mach_ipc.Message.{no_data}
use mach_ipc.Request.{error_status, payload_buffer, ply_free, user_message}
use mach_ipc.Resources.Cleanup.{ResourceType, port, thread, Machine}
use mach_ipc.Resources.{resource_tracker_add}
use mach_ipc.Server.Life.{assign}
use mach_ipc.Client.State.{
  MachClient, Notice, connection, disconnection, server_port_at, local_port_at, receiver_thread_at,
}
use mach_ipc.Client.Life.{notify}

-- When the receiver thread handles the notification that the server is dead, if it does during the call:
-- while the request is answered, or after `connected` was set and before `on_connected` runs. It comes
-- once, since the thread then ends.
pub data Loss : Type 0 where
  no_loss while_waiting when_connected : Loss

-- The answers of the system: the lookup with the server's port, the allocation with the local port,
-- the send right, the dead-name notification, `pthread_create` with the thread, and what happens while
-- the request is answered; then which callbacks are set.
pub record Answers : Type 0 where
  pub look_up : KernReturn × ℕ
  pub allocate : KernReturn × ℕ
  pub insert_right : KernReturn
  pub request_notification : KernReturn
  pub thread_made : Bool × ℕ
  pub env : Environment
  pub on_connected : Bool
  pub loss : Loss
  pub on_disconnected : Bool

-- The status, the client and the variables, the memory that was given back, and what the user hears of
-- the connection and its loss.
pub record Result : Type 0 where
  pub status : ℤ
  pub client : MachClient
  pub machine : Machine
  pub freed : List Buffer
  pub notices : List Notice

abbrev pub give_up : ℤ → MachClient → Machine → List Buffer → Result
give_up status c m freed = record {
  status = status;
  client = c;
  machine = m;
  freed = freed;
  notices = [];
}

abbrev pub free_ack : Incoming → List Buffer
free_ack ack = ply_free (payload_buffer ack) ++ ply_free ack.user

-- `handle_death_notification` in the receiver thread.
abbrev pub lose : MachClient → MachClient
lose c = record c { connected = false; running = false }

abbrev pub lost_waiting : Loss → MachClient → MachClient
lost_waiting while_waiting c = lose c
lost_waiting _ c = c

abbrev pub lost_connected : Loss → MachClient → MachClient
lost_connected when_connected c = lose c
lost_connected _ c = c

-- What the user hears of it.
abbrev pub told_loss : Loss → (on_disconnected : Bool) → List Notice
told_loss no_loss on_disconnected = []
told_loss _ on_disconnected = notify on_disconnected disconnection

abbrev pub told_waiting : Loss → (on_disconnected : Bool) → List Notice
told_waiting while_waiting on_disconnected = notify on_disconnected disconnection
told_waiting _ on_disconnected = []

-- `return ack_payload->status`, behind `ply_free`: memory that was deallocated cannot be read.
read_freed : (freed : List Buffer) → Result → Option Result
read_freed [] r = some r
read_freed (b ∷ freed) r = none

abbrev pub give_up_waiting : Answers → ℤ → MachClient → Machine → List Buffer → Result
give_up_waiting a status c m freed = record (give_up status c m freed) {
  notices = told_waiting a.loss a.on_disconnected;
}

-- `ack_payload` is there.
accept_reply : Answers → MachClient → Machine → Incoming → Option Result
unfolding read_freed
accept_reply a c m ack =
    if eq_ℤ ack.content.status ipc_success
    then some (record {
      status = ipc_success;
      client = lost_connected a.loss (record c {
        client_id = ack.content.client_id;
        client_slot = ack.content.client_slot;
        connected = true;
      });
      machine = m;
      freed = free_ack ack;
      notices = told_loss a.loss a.on_disconnected ++ notify a.on_connected connection;
    })
    else read_freed (ply_free (payload_buffer ack))
        (give_up_waiting a ack.content.status c m (free_ack ack))

-- Behind `protocol_send_with_ack`.
conclude : Answers → MachClient → Machine → KernReturn → Option Incoming → Option Result
unfolding accept_reply
conclude a c m success none = some (give_up_waiting a ipc_error_internal c m [])
conclude a c m success (some ack) =
    if ack.address == 0
    then some (give_up_waiting a ipc_error_internal c m (ply_free ack.user))
    else accept_reply a c m ack
conclude a c m kr reply = some (give_up_waiting a (error_status kr) c m [])

-- A call that waits for ever is `some none`, a fault is `none`.
conclude_outcome : Answers → MachClient → Machine → Outcome → Option (Option Result)
unfolding conclude
conclude_outcome a c m (returned kr reply) = do r ← conclude a c m kr reply; some (some r)
conclude_outcome a c m waits_forever = some none

request : Answers → MachClient → Machine → (timeout_ms : ℕ) → Option (Option Result)
unfolding conclude_outcome
request a c m timeout_ms = do
  (outcome, ack) ←
      protocol_send_with_ack a.env c.ack (m.cells (server_port_at c.address))
        (m.cells (local_port_at c.address)) msg_id_connect (some (user_message 0 minus_one))
        sizeof_payload no_data timeout_ms
  conclude_outcome a (lost_waiting a.loss (record c { ack = ack })) m outcome

abbrev track : MachClient → ResourceType → ℕ → MachClient
track c type resource = record c {
  resources = (resource_tracker_add c.resources type resource none).1;
}

start : Answers → MachClient → Machine → (timeout_ms : ℕ) → Option (Option Result)
unfolding request
start a c m timeout_ms =
    if a.thread_made.0
    then request a (track (record c { running = true }) thread (receiver_thread_at c.address))
        (assign m (receiver_thread_at c.address) a.thread_made.1) timeout_ms
    else some (some (give_up ipc_error_internal (record c { running = false }) m []))

-- With both ports there and tracked.
prepare : Answers → MachClient → Machine → (timeout_ms : ℕ) → Option (Option Result)
unfolding start
prepare a c m timeout_ms =
    if is_success a.insert_right
    then if is_success a.request_notification
      then start a c m timeout_ms
      else some (some (give_up ipc_error_internal c m []))
    else some (some (give_up ipc_error_internal c m []))

-- With the server's port there and tracked.
make_port : Answers → MachClient → Machine → (timeout_ms : ℕ) → Option (Option Result)
unfolding prepare
make_port a c m timeout_ms =
    if is_success a.allocate.0
    then prepare a (track c port (local_port_at c.address))
        (assign m (local_port_at c.address) a.allocate.1) timeout_ms
    else some (some (give_up ipc_error_internal c m []))

look_up_server : Answers → MachClient → Machine → (timeout_ms : ℕ) → Option (Option Result)
unfolding make_port
look_up_server a c m timeout_ms =
    if is_success a.look_up.0
    then make_port a (track c port (server_port_at c.address))
        (assign m (server_port_at c.address) a.look_up.1) timeout_ms
    else some (some (give_up ipc_error_not_connected c m []))

-- With a client and a service name; without them the status is IPC_ERROR_INVALID_PARAM and nothing is
-- done.
pub mach_client_connect : Answers → MachClient → Machine → (timeout_ms : ℕ) → Option (Option Result)
unfolding look_up_server
mach_client_connect a c m timeout_ms =
    if c.connected
    then some (some (give_up ipc_error_internal c m []))
    else look_up_server a c m timeout_ms
