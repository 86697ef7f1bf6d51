-- ===== src/Message.antt =====
-- src/server.c and src/client.c, `handle_user_message`: what becomes of a user's message when the queue
-- runs its block. The block is the same on both sides, but for the port and the identity with which it
-- answers. The callbacks are parameters. Deallocation errors are only logged.
pub mod Laws
mod Tests
use mach_ipc.Base.{
  ℕ, Bool, true, false, Option, none, some, List, [], ℤ, pos, negsuc, minus_one, if◌then◌else◌,
}
use mach_ipc.MsgId.{feature_wack, has_feature, user_msg_type}
use mach_ipc.Deadline.{Timespec, user_payload_is_save}
use mach_ipc.Protocol.Types.{
  KernReturn, Payload, sizeof_payload, Buffer, Message, ipc_error_timeout,
}
use mach_ipc.Protocol.Send.{Sent, protocol_send_ack, no_deadline}
use mach_ipc.Protocol.Receive.{Received, Dealloc, clean}
use mach_ipc.Server.Clients.{Client, Table, find_client_by_id_locked}

-- What `on_message_with_reply` leaves: the remote port, the reply and its status.
pub record Answer : Type 0 where
  pub remote_port : ℕ
  pub reply : Buffer
  pub status : ℤ

-- The callbacks for messages, of the remote port, the message's type and its data. A callback may take
-- the remote port by setting it to null.
pub record Callbacks : Type 0 where
  pub on_message_with_reply : Option ((remote_port type : ℕ) → Buffer → Answer)
  pub on_message : Option ((remote_port type : ℕ) → Buffer → ℕ)

-- Where the answer goes, and as whom.
pub record Origin : Type 0 where
  pub port : ℕ
  pub client_id : ℕ
  pub client_slot : ℤ

-- What a block leaves: the data that a callback was given, the acknowledgment, the reply that
-- `ipc_free` got, the remote port at the end, and what was deallocated.
pub record Processed : Type 0 where
  pub read : Option Buffer
  pub ack : Option Sent
  pub freed : Option Buffer
  pub remote_port : ℕ
  pub deallocs : List Dealloc

abbrev pub no_data : Buffer
no_data = record { address = 0; size = 0 }

-- The initialiser of `ack`; what it does not name is zero.
abbrev pub answer_payload : Origin → (status : ℤ) → Payload
answer_payload o status = record {
  client_id = o.client_id;
  client_slot = o.client_slot;
  correlation_id = 0;
  correlation_slot = pos 0;
  status = status;
  user_payload_deadline = no_deadline;
}

module _ (mach_msg : Message → KernReturn) (now : Timespec) where
  pub acknowledge : Origin → Received → (status : ℤ) → Buffer → Sent
  acknowledge o m status reply =
      protocol_send_ack mach_msg now o.port m.id m.content.correlation_id m.content.correlation_slot
        (answer_payload o status) sizeof_payload reply

-- The client that a message names, in the slot that it names or, for a negative one, wherever it is.
pub find_sender : Table → Received → Option (ℕ × Client)
find_sender t m = find_client_by_id_locked t m.content.client_id (some m.content.client_slot)

-- `now` is the time at which the queue runs the block.
module _ (mach_msg : Message → KernReturn) (now : Timespec) (callbacks : Callbacks) where
  -- A message with reply.
  pub process_with_reply : Origin → Received → (safe : Bool) → Processed
  process_with_reply o m true = elim callbacks.on_message_with_reply [
    | none ↦ record {
      read = none;
      ack = none;
      freed = none;
      remote_port = m.remote_port;
      deallocs = clean m.remote_port m;
    }
    | some f ↦
        let a = f m.remote_port (user_msg_type m.id) m.user in
        record {
          read = some m.user;
          ack = some (acknowledge mach_msg now o m a.status a.reply);
          freed = some a.reply;
          remote_port = a.remote_port;
          deallocs = clean a.remote_port m;
        }
  ]
  process_with_reply o m false = record {
    read = none;
    ack = some (acknowledge mach_msg now o m ipc_error_timeout no_data);
    freed = none;
    remote_port = m.remote_port;
    deallocs = clean m.remote_port m;
  }

  -- A fire-and-forget message.
  pub process_without_reply : Received → (safe : Bool) → Processed
  process_without_reply m true = elim callbacks.on_message [
    | none ↦ record {
      read = none;
      ack = none;
      freed = none;
      remote_port = m.remote_port;
      deallocs = clean m.remote_port m;
    }
    | some f ↦ record {
      read = some m.user;
      ack = none;
      freed = none;
      remote_port = f m.remote_port (user_msg_type m.id) m.user;
      deallocs = clean (f m.remote_port (user_msg_type m.id) m.user) m;
    }
  ]
  process_without_reply m false = record {
    read = none;
    ack = none;
    freed = none;
    remote_port = m.remote_port;
    deallocs = clean m.remote_port m;
  }

  pub process : Origin → Received → Processed
  unfolding process_with_reply process_without_reply
  process o m =
      let safe = user_payload_is_save now m.content.user_payload_deadline in
      if has_feature feature_wack m.id
      then process_with_reply o m safe
      else process_without_reply m safe

  -- The server answers as nobody. A message from an unknown client is dropped, with `none`.
  pub server_handle_user_message : Table → Received → Option Processed
  unfolding process find_sender
  server_handle_user_message t m = elim (find_sender t m) [
    | none ↦ none
    | some (slot, c) ↦
        some (process (record { port = c.port; client_id = 0; client_slot = minus_one }) m)
  ]

  -- The client answers to the server with the id and the slot that it was given.
  pub client_handle_user_message :
      (server_port client_id : ℕ) (client_slot : ℤ) → Received → Processed
  unfolding process
  client_handle_user_message server_port client_id client_slot m =
      process (record { port = server_port; client_id = client_id; client_slot = client_slot }) m
