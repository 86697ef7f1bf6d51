-- ===== src/Protocol/Send.antt =====
-- src/protocol.c, `protocol_send_message` and `protocol_send_ack`.
pub mod Laws
use mach_ipc.Base.{
  ℕ, ◌%◌, ◌^◌, Bool, true, false, not, ◌&&◌, ◌||◌, Option, none, some, ℤ, pos, negsuc, minus_one,
  ltb, ◌==◌, if◌then◌else◌,
}
use mach_ipc.MsgId.{
  feature_wack, feature_iack, feature_lpcy, has_feature, unset_feature, ack_msg_id,
}
use mach_ipc.Deadline.{Timespec, calc_deadline, user_ply_safety_ms}
use mach_ipc.Protocol.Types.{
  KernReturn, invalid_argument, Payload, sizeof_payload, Buffer, Message, nothing, copy_send,
  move_send, Disposition, port_null,
}

-- What a call leaves behind: its return code, the caller's payload, which it may have changed, and
-- the message that it handed to `mach_msg`, if it got that far.
pub record Sent : Type 0 where
  pub result : KernReturn
  pub payload : Option Payload
  pub message : Option Message

-- Only a message that asks for an acknowledgment, or is one, keeps its correlation.
unfoldable pub clear_correlation : (msg_id : ℕ) → Payload → Payload
clear_correlation msg_id payload =
    if not (has_feature feature_wack msg_id) && not (has_feature feature_iack msg_id)
    then record payload { correlation_id = 0; correlation_slot = minus_one }
    else payload

-- The local half of MACH_MSGH_BITS.
abbrev pub local_bits : (local_port msg_id : ℕ) → Disposition
local_bits local_port msg_id =
    if local_port == port_null
    then nothing
    else if has_feature feature_lpcy msg_id
    then copy_send
    else move_send

abbrev pub drop_lpcy : (local_port msg_id : ℕ) → ℕ
drop_lpcy local_port msg_id =
    if local_port == port_null then unset_feature msg_id feature_lpcy else msg_id

abbrev pub no_deadline : Timespec
no_deadline = record { tv_sec = 0; tv_nsec = 0 }

abbrev pub deadline_for : (now : Timespec) (tio_ms : ℕ) → Timespec
deadline_for now tio_ms = if tio_ms == 0 then no_deadline else calc_deadline now tio_ms

-- The sizes in a descriptor are 32 bits wide.
abbrev pub message_of :
    (dest_port local_port msg_id : ℕ) → Payload → (payload_size : ℕ) → Buffer → Message
message_of dest_port local_port msg_id payload payload_size user = record {
  is_complex = true;
  remote_disposition = copy_send;
  local_disposition = local_bits local_port msg_id;
  remote_port = dest_port;
  local_port = local_port;
  id = msg_id;
  descriptor_count = 2;
  payload = payload;
  payload_size = payload_size % 2 ^ 32;
  user_payload = record user { size = user.size % 2 ^ 32 };
}

abbrev is_negative : ℤ → Bool
is_negative (pos n) = false
is_negative (negsuc n) = true

-- `mach_msg` is the kernel's send, with its timeout of 100 ms.
module _ (mach_msg : Message → KernReturn) (now : Timespec) where
  unfoldable pub hand_over : Message → Payload → Sent
  hand_over m payload = record { result = mach_msg m; payload = some payload; message = some m }

  -- Behind the test of the payload.
  unfoldable pub send_payload :
      (dest_port local_port msg_id : ℕ)
      → Payload
      → (payload_size : ℕ) → Buffer
      → (tio_ms : ℕ) → Sent
  unfolding hand_over clear_correlation
  send_payload dest_port local_port msg_id payload payload_size user tio_ms =
      let cleared = clear_correlation msg_id payload in
      let stamped = record cleared { user_payload_deadline = deadline_for now tio_ms } in
      if not (tio_ms == 0) && ltb tio_ms user_ply_safety_ms
      then record { result = invalid_argument; payload = some cleared; message = none }
      else hand_over
          (message_of dest_port local_port (drop_lpcy local_port msg_id) stamped payload_size user)
          stamped

  -- A null payload is `none`.
  unfoldable pub protocol_send_message :
      (dest_port local_port msg_id : ℕ)
      → Option Payload
      → (payload_size : ℕ) → Buffer
      → (tio_ms : ℕ) → Sent
  unfolding send_payload
  protocol_send_message dest_port local_port msg_id none payload_size user tio_ms = record {
    result = invalid_argument;
    payload = none;
    message = none;
  }
  protocol_send_message dest_port local_port msg_id (some payload) payload_size user tio_ms =
      if ltb payload_size sizeof_payload
      then record { result = invalid_argument; payload = some payload; message = none }
      else send_payload dest_port local_port msg_id payload payload_size user tio_ms

  unfoldable pub protocol_send_ack :
      (dest_port original_msg_id correlation_id : ℕ) (correlation_slot : ℤ)
      → Payload
      → (ack_size : ℕ) → Buffer
      → Sent
  unfolding protocol_send_message
  protocol_send_ack dest_port original_msg_id correlation_id correlation_slot ack ack_size user =
      if correlation_id == 0 || is_negative correlation_slot
      then record { result = invalid_argument; payload = some ack; message = none }
      else protocol_send_message dest_port port_null (ack_msg_id original_msg_id)
          (some
            (record ack { correlation_id = correlation_id; correlation_slot = correlation_slot }))
          ack_size user 0
