-- ===== src/Request.antt =====
-- The calls that send a user's message, on both sides: `mach_server_send` and
-- `mach_server_send_with_reply` of src/server.c, `mach_client_send_with_port` and
-- `mach_client_send_with_port_and_reply` of src/client.c.
pub mod Laws
mod Tests
use mach_ipc.Base.{
  ℕ, Bool, true, false, not, ◌&&◌, ◌||◌, Option, none, some, ◌>>=◌, List, [], ◌∷◌, ◌++◌, ℤ, pos,
  negsuc, minus_one, ◌==◌, if◌then◌else◌,
}
use mach_ipc.MsgId.{msg_id_user}
use mach_ipc.Deadline.{Timespec}
use mach_ipc.Protocol.Types.{
  KernReturn, success, timed_out, is_success, Payload, sizeof_payload, Buffer, Message, port_null,
  ipc_success, ipc_error_invalid_param, ipc_error_not_connected, ipc_error_timeout,
  ipc_error_send_failed,
}
use mach_ipc.Protocol.Send.{Sent, protocol_send_message, no_deadline}
use mach_ipc.Protocol.Ack.{Incoming}
use mach_ipc.Protocol.WithAck.{
  Environment, Shared, Outcome, returned, waits_forever, protocol_send_with_ack,
}
use mach_ipc.Server.Clients.{Client}

-- `ptr && size`
abbrev pub is_there : Buffer → Bool
is_there b = not (b.address == 0) && not (b.size == 0)

-- `ply_free`: what it deallocates.
abbrev pub ply_free : Buffer → List Buffer
ply_free b = if is_there b then b ∷ [] else []

-- The status, what the caller finds in `*reply_data` and `*reply_size` (`none` for null and 0), and
-- what was deallocated.
pub record Returned : Type 0 where
  pub status : ℤ
  pub reply : Option Buffer
  pub freed : List Buffer

abbrev pub failed : ℤ → Returned
failed status = record { status = status; reply = none; freed = [] }

abbrev pub payload_buffer : Incoming → Buffer
payload_buffer ack = record { address = ack.address; size = ack.size }

-- `kr == KERN_OPERATION_TIMED_OUT ? IPC_ERROR_TIMEOUT : IPC_ERROR_SEND_FAILED`
unfoldable pub error_status : KernReturn → ℤ
error_status timed_out = ipc_error_timeout
error_status _ = ipc_error_send_failed

-- With the user's part of the acknowledgment there. `wants` is `reply_size && reply_data`.
settle_user : (wants : Bool) → KernReturn → (status : ℤ) → Buffer → (freed : List Buffer) → Returned
unfolding error_status
settle_user true success status user freed = record {
  status = status;
  reply = some user;
  freed = freed;
}
settle_user false success status user freed = record {
  status = status;
  reply = none;
  freed = freed ++ ply_free user;
}
settle_user true kr status user freed = record {
  status = error_status kr;
  reply = none;
  freed = freed ++ (user ∷ []);
}
settle_user false kr status user freed = record {
  status = error_status kr;
  reply = none;
  freed = freed ++ (ply_free user ++ (user ∷ []));
}

settle_status : KernReturn → (status : ℤ) → (freed : List Buffer) → Returned
unfolding error_status
settle_status success status freed = record { status = status; reply = none; freed = freed }
settle_status kr status freed = record { status = error_status kr; reply = none; freed = freed }

-- What the two calls with reply do with the results of `protocol_send_with_ack`.
pub settle : (wants : Bool) → KernReturn → Option Incoming → Returned
unfolding settle_user settle_status
settle wants kr none = settle_status kr ipc_success []
settle wants kr (some ack) =
    let there = is_there (payload_buffer ack) in
    let status = if there then ack.content.status else ipc_success in
    let freed = ply_free (payload_buffer ack) in
    if is_there ack.user
    then settle_user wants kr status ack.user freed
    else settle_status kr status freed

-- A call that waits for ever is `none`.
settle_outcome : (wants : Bool) → Outcome → Option Returned
unfolding settle
settle_outcome wants (returned kr ack) = some (settle wants kr ack)
settle_outcome wants waits_forever = none

-- The initialiser of `payload`; what it does not name is zero.
abbrev pub user_message : (client_id : ℕ) (client_slot : ℤ) → Payload
user_message client_id client_slot = record {
  client_id = client_id;
  client_slot = client_slot;
  correlation_id = 0;
  correlation_slot = pos 0;
  status = ipc_success;
  user_payload_deadline = no_deadline;
}

abbrev send_status : KernReturn → ℤ
send_status kr = if is_success kr then ipc_success else ipc_error_send_failed

-- What the pointer of a handle leads to: a handle that the user has kept may outlive its client, whose
-- memory is then freed.
pub data Internal : Type 0 where
  null_pointer freed_client : Internal
  client_at : Client → Internal

-- A handle: its id, and `internal`.
pub record Handle : Type 0 where
  pub id : ℕ
  pub internal : Internal

-- `!IS_VALID_CLIENT(client)` and `!client_info->active`: the client, or the error, or memory that was
-- freed has been read.
pub data Checked : Type 0 where
  refused : ℤ → Checked
  active_client : Client → Checked
  dangling : Checked

pub check_handle : (server_given : Bool) → Handle → Checked
check_handle false h = refused ipc_error_invalid_param
check_handle true h = if h.id == 0 then refused ipc_error_invalid_param else elim h.internal [
  | null_pointer ↦ refused ipc_error_invalid_param
  | freed_client ↦ dangling
  | client_at c ↦ if c.active then active_client c else refused ipc_error_not_connected
]

-- The messages that were handed to the kernel come with the status.
send_checked :
    (Message → KernReturn)
    → Timespec
    → Checked
    → (msg_type : ℕ) → Buffer
    → Option (ℤ × Option Message)
send_checked mach_msg now dangling msg_type user = none
send_checked mach_msg now (refused status) msg_type user = some (status, none)
send_checked mach_msg now (active_client c) msg_type user =
    let sent =
      protocol_send_message mach_msg now c.port port_null (msg_id_user msg_type)
        (some (user_message 0 minus_one)) sizeof_payload user 0 in
    some (send_status sent.result, sent.message)

pub mach_server_send :
    (Message → KernReturn)
    → Timespec
    → (server_given : Bool) → Handle
    → (msg_type : ℕ) → Buffer
    → Option (ℤ × Option Message)
unfolding check_handle send_checked
mach_server_send mach_msg now server_given h msg_type user =
    send_checked mach_msg now (check_handle server_given h) msg_type user

-- The common part of the two calls with reply.
pub send_with_reply :
    Environment
    → Shared
    → (dest_port local_port msg_type : ℕ) → Payload
    → Buffer
    → (wants : Bool) → (timeout_ms : ℕ) → Option (Option Returned × Shared)
unfolding settle_outcome
send_with_reply env s dest_port local_port msg_type payload user wants timeout_ms = do
  (outcome, s') ←
      protocol_send_with_ack env s dest_port local_port (msg_id_user msg_type) (some payload)
        sizeof_payload user timeout_ms
  some (settle_outcome wants outcome, s')

request_checked :
    Environment
    → Shared
    → Checked
    → (msg_type : ℕ) → Buffer
    → (wants : Bool) → (timeout_ms : ℕ) → Option (Option Returned × Shared)
unfolding send_with_reply
request_checked env s dangling msg_type user wants timeout_ms = none
request_checked env s (refused status) msg_type user wants timeout_ms =
    some (some (failed status), s)
request_checked env s (active_client c) msg_type user wants timeout_ms =
    send_with_reply env s c.port port_null msg_type (user_message 0 minus_one) user wants timeout_ms

pub mach_server_send_with_reply :
    Environment
    → Shared
    → (server_given : Bool) → Handle
    → (msg_type : ℕ) → Buffer
    → (wants : Bool) → (timeout_ms : ℕ) → Option (Option Returned × Shared)
unfolding check_handle request_checked
mach_server_send_with_reply env s server_given h msg_type user wants timeout_ms =
    request_checked env s (check_handle server_given h) msg_type user wants timeout_ms

-- The fields of `mach_client` that the calls read. A null client is `none`.
pub record Endpoint : Type 0 where
  pub connected : Bool
  pub server_port : ℕ
  pub client_id : ℕ
  pub client_slot : ℤ

pub mach_client_send_with_port :
    (Message → KernReturn)
    → Timespec
    → Option Endpoint
    → (local_port msg_type : ℕ) → Buffer
    → ℤ × Option Message
mach_client_send_with_port mach_msg now none local_port msg_type user =
    (ipc_error_not_connected, none)
mach_client_send_with_port mach_msg now (some e) local_port msg_type user =
    if e.connected
    then (let sent =
          protocol_send_message mach_msg now e.server_port local_port (msg_id_user msg_type)
            (some (user_message e.client_id e.client_slot)) sizeof_payload user 0 in
        (send_status sent.result, sent.message))
    else (ipc_error_not_connected, none)

pub mach_client_send_with_port_and_reply :
    Environment
    → Shared
    → Option Endpoint
    → (local_port msg_type : ℕ) → Buffer
    → (wants : Bool) → (timeout_ms : ℕ) → Option (Option Returned × Shared)
unfolding send_with_reply
mach_client_send_with_port_and_reply env s none local_port msg_type user wants timeout_ms =
    some (some (failed ipc_error_invalid_param), s)
mach_client_send_with_port_and_reply env s (some e) local_port msg_type user wants timeout_ms =
    if e.connected
    then send_with_reply env s e.server_port local_port msg_type
        (user_message e.client_id e.client_slot) user wants timeout_ms
    else some (some (failed ipc_error_invalid_param), s)

pub mach_client_send :
    (Message → KernReturn)
    → Timespec
    → Option Endpoint
    → (msg_type : ℕ) → Buffer
    → ℤ × Option Message
unfolding mach_client_send_with_port
mach_client_send mach_msg now e msg_type user =
    mach_client_send_with_port mach_msg now e port_null msg_type user

pub mach_client_send_with_reply :
    Environment
    → Shared
    → Option Endpoint
    → (msg_type : ℕ) → Buffer
    → (wants : Bool) → (timeout_ms : ℕ) → Option (Option Returned × Shared)
unfolding mach_client_send_with_port_and_reply
mach_client_send_with_reply env s e msg_type user wants timeout_ms =
    mach_client_send_with_port_and_reply env s e port_null msg_type user wants timeout_ms
