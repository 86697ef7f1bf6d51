-- ===== src/Protocol/Send/Laws.antt =====
-- What `protocol_send_message` and `protocol_send_ack` put on the wire.
use mach_ipc.Base.{
  ℕ, ◌+◌, ◌*◌, ◌^◌, ◌<◌, ◌≤◌, ◌≡◌, ◌≢◌, ◌⊎◌, ◌↔◌, refl, ◌∙◌, true, false, ◌||◌, Option, none, some,
  pos, minus_one, arith, ◌==◌, if◌then◌else◌,
}
use mach_ipc.MsgId.{
  feature_wack, feature_iack, feature_lpcy, has_feature, unset_feature, ack_msg_id, user_msg_type,
}
use mach_ipc.MsgId.Features.{ack_msg_id_lem, ack_msg_id-lt, unset_lpcy_features}
use mach_ipc.Deadline.{Timespec, calc_deadline, has_no_deadline, user_ply_safety_ms}
use mach_ipc.Deadline.Laws.{IsNormal, calc_deadline_exact, has_no_deadline_iff, nanos}
use mach_ipc.Protocol.Types.{
  KernReturn, invalid_argument, Payload, sizeof_payload, Buffer, Message, nothing, copy_send,
  move_send, port_null,
}
use mach_ipc.Protocol.Send.{protocol_send_message, protocol_send_ack, message_of, no_deadline}

module _ (mach_msg : Message → KernReturn) (now : Timespec) where
  -- A message is handed to the kernel exactly if the payload is there with its full size and the
  -- timeout is either 0 or at least the safety margin of 10 ms; the call returns the kernel's answer.
  -- Otherwise it returns KERN_INVALID_ARGUMENT.
  pub protocol_send_message_sends :
      (dest_port local_port msg_id : ℕ) (payload : Option Payload) (payload_size : ℕ)
      (user : Buffer) (tio_ms : ℕ)
      → let sent =
          protocol_send_message mach_msg now dest_port local_port msg_id payload payload_size user
            tio_ms in
        ((sent.message ≢ none) ↔ (
          (payload ≢ none)
          × (sizeof_payload ≤ payload_size)
          × ((tio_ms ≡ 0) ⊎ (user_ply_safety_ms ≤ tio_ms))))
        × ((sent.message ≡ none) → sent.result ≡ invalid_argument)
        × ((m : Message) → sent.message ≡ some m → sent.result ≡ mach_msg m)
  unfolding protocol_send_message
  protocol_send_message_sends dest_port local_port msg_id none payload_size user tio_ms =
      ground arith
  protocol_send_message_sends dest_port local_port msg_id (some payload) payload_size user tio_ms =
      ground arith

  -- In every message that is sent: a correlation is kept only beside WACK or IACK, and is else 0 in
  -- slot -1; without a local port there is no LPCY and no local right, and with one LPCY decides
  -- whether the right is copied or moved.
  pub protocol_send_message_header :
      (dest_port local_port msg_id : ℕ) (payload : Payload) (payload_size : ℕ) (user : Buffer)
      (tio_ms : ℕ) {m : Message}
      → msg_id < 2 ^ 32
      → (protocol_send_message mach_msg now dest_port local_port msg_id
          (some payload)
          payload_size
          user
          tio_ms).message
        ≡ some m
      → (m.payload.correlation_id ≡ (
          if has_feature feature_wack m.id || has_feature feature_iack m.id
          then payload.correlation_id
          else 0))
        × (m.payload.correlation_slot ≡ (
            if has_feature feature_wack m.id || has_feature feature_iack m.id
            then payload.correlation_slot
            else minus_one))
        × (m.local_disposition ≡ (
            if local_port == port_null
            then nothing
            else if has_feature feature_lpcy m.id
            then copy_send
            else move_send))
        × (local_port ≡ port_null → has_feature feature_lpcy m.id ≡ false)
  unfolding protocol_send_message
  protocol_send_message_header dest_port local_port msg_id payload payload_size user tio_ms h e =
      ground (arith, unset_lpcy_features msg_id h)

  -- The deadline that the receiver reads: none for timeout 0, and only then, and else the time of
  -- sending plus the timeout, for a normalised clock.
  pub protocol_send_message_deadline :
      (dest_port local_port msg_id : ℕ) (payload : Payload) (payload_size : ℕ) (user : Buffer)
      (tio_ms : ℕ) {m : Message}
      → IsNormal now
      → (protocol_send_message mach_msg now dest_port local_port msg_id
          (some payload)
          payload_size
          user
          tio_ms).message
        ≡ some m
      → (has_no_deadline m.payload.user_payload_deadline ≡ (tio_ms == 0))
        × (tio_ms ≢ 0 → nanos m.payload.user_payload_deadline ≡ nanos now + tio_ms * 1000000)
  unfolding protocol_send_message
  protocol_send_message_deadline dest_port local_port msg_id payload payload_size user tio_ms h e =
      ground (
        arith,
        calc_deadline_exact now tio_ms h,
        has_no_deadline_iff (calc_deadline now tio_ms),
        has_no_deadline_iff no_deadline,
      )

  -- With a full payload, a correlation id other than 0 and a slot that is not negative an
  -- acknowledgment is sent. It carries both, the status and the port given, is marked as one and asks
  -- for none, has no local right, and keeps the type of the message that it answers.
  pub protocol_send_ack_lem :
      (dest_port original_msg_id correlation_id slot : ℕ) (ack : Payload) (ack_size : ℕ)
      (user : Buffer)
      → original_msg_id < 2 ^ 32
      → sizeof_payload ≤ ack_size
      → correlation_id ≢ 0
      → (m : Message) × ((protocol_send_ack mach_msg now dest_port original_msg_id correlation_id
            (pos slot)
            ack
            ack_size
            user).message
          ≡ some m)
        × (m.payload.correlation_id ≡ correlation_id)
        × (m.payload.correlation_slot ≡ pos slot)
        × (m.payload.status ≡ ack.status)
        × (m.remote_port ≡ dest_port)
        × (m.local_disposition ≡ nothing)
        × (has_feature feature_iack m.id ≡ true)
        × (has_feature feature_wack m.id ≡ false)
        × (user_msg_type m.id ≡ user_msg_type original_msg_id)
  unfolding protocol_send_ack
  protocol_send_ack_lem dest_port original_msg_id correlation_id slot ack ack_size user h hs hc =
      let id = unset_feature (ack_msg_id original_msg_id) feature_lpcy in
      let sent = record ack {
        correlation_id = correlation_id;
        correlation_slot = pos slot;
        user_payload_deadline = no_deadline;
      } in
      let marked = ack_msg_id_lem original_msg_id h in
      let kept =
        unset_lpcy_features (ack_msg_id original_msg_id) (ack_msg_id-lt original_msg_id h) in
      (
        message_of dest_port port_null id sent ack_size user,
        ground (arith, marked),
        refl,
        refl,
        refl,
        refl,
        refl,
        kept.2 ∙ marked.0,
        kept.1 ∙ marked.1,
        kept.3 ∙ marked.5,
      )

  -- The payload of an acknowledgment as it is sent.
  abbrev pub ack_payload : (correlation_id slot : ℕ) → Payload → Payload
  ack_payload correlation_id slot ack = record ack {
    correlation_id = correlation_id;
    correlation_slot = pos slot;
    user_payload_deadline = no_deadline;
  }

  abbrev pub ack_message :
      (dest_port original_msg_id correlation_id slot : ℕ)
      → Payload
      → (ack_size : ℕ) → Buffer
      → Message
  ack_message dest_port original_msg_id correlation_id slot ack ack_size user =
      message_of dest_port port_null (unset_feature (ack_msg_id original_msg_id) feature_lpcy)
        (ack_payload correlation_id slot ack) ack_size user

  pub protocol_send_ack_message :
      (dest_port original_msg_id correlation_id slot : ℕ) (ack : Payload) (ack_size : ℕ)
      (user : Buffer)
      → original_msg_id < 2 ^ 32
      → sizeof_payload ≤ ack_size
      → correlation_id ≢ 0
      → protocol_send_ack mach_msg now dest_port original_msg_id correlation_id
          (pos slot)
          ack
          ack_size
          user
        ≡ record {
          result =
              mach_msg
                (ack_message dest_port original_msg_id correlation_id slot ack ack_size user);
          payload = some (ack_payload correlation_id slot ack);
          message =
              some (ack_message dest_port original_msg_id correlation_id slot ack ack_size user);
        }
  unfolding protocol_send_ack
  protocol_send_ack_message dest_port original_msg_id correlation_id slot ack ack_size user h hs
        hc =
      let marked = ack_msg_id_lem original_msg_id h in ground (arith, marked)
