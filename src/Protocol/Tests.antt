-- ===== src/Protocol/Tests.antt =====
-- Runs of the protocol at concrete inputs, and the lemmas about it applied.
use mach_ipc.Base.{
  Option, ℕ, suc, ◌≤◌, ◌≡◌, ◌≢◌, ◌↔◌, ◌⊎◌, refl, Bool, true, false, ◌||◌, none, some, [], ◌∷◌, set,
  pos, minus_one, ◌==◌, if◌then◌else◌, arith,
}
use mach_ipc.MsgId.{
  feature_wack, feature_iack, feature_lpcy, has_feature, is_this_protocol_msg, user_msg_type,
  set_feature,
}
use mach_ipc.Deadline.{Timespec, calc_deadline, user_ply_safety_ms}
use mach_ipc.Pool.{Pool}
use mach_ipc.Pool.Inv.{Inv}
use mach_ipc.Pool.Init.{fresh, fresh-Inv}
use mach_ipc.Protocol.Types.{
  KernReturn, success, invalid_argument, Payload, sizeof_payload, Buffer, Message, nothing,
  copy_send, move_send, port_null,
}
use mach_ipc.Protocol.Send.{protocol_send_message, protocol_send_ack}
use mach_ipc.Protocol.Send.Laws.{
  protocol_send_message_sends, protocol_send_message_header, protocol_send_ack_lem,
}
use mach_ipc.Protocol.Ack.{Incoming, Waiter}
use mach_ipc.Protocol.Ack.Waiters.{matches, with_reply}
use mach_ipc.Protocol.Ack.Deliver.{blank, waiter, with_slots}
use mach_ipc.Protocol.Ack.Slot.{registered, registered-Held}
use mach_ipc.Protocol.Ack.Owner.{Owned, handle_ack_message_owner}
use mach_ipc.Protocol.WithAck.{Environment, Shared, waits_forever, returned, protocol_send_with_ack}
use mach_ipc.Protocol.WithAck.Returns.{protocol_send_with_ack_returns}
use mach_ipc.Protocol.WithAck.Laws.{expected}
use mach_ipc.Protocol.WithAck.Total.{
  Sound, next_id, protocol_send_with_ack_lem, protocol_send_with_ack-Sound,
}
use mach_ipc.Protocol.Receive.{Received, Reply, ack_of, clean, is_well_formed, receive}
use mach_ipc.Protocol.Receive.Laws.{receive_ack_owner}

-- A kernel that sends everything.
abbrev sends : Message → KernReturn
sends m = success

abbrev clock : Timespec
clock = record { tv_sec = 7; tv_nsec = 999000000 }

abbrev pub payload : Payload
payload = record {
  client_id = 3;
  client_slot = pos 2;
  correlation_id = 9;
  correlation_slot = pos 0;
  status = pos 0;
  user_payload_deadline = record { tv_sec = 0; tv_nsec = 0 };
}

abbrev pub user_data : Buffer
user_data = record { address = 4096; size = 16 }

abbrev pub timeout_ms : ℕ
timeout_ms = 100

abbrev pub reply_port : ℕ
reply_port = 77

-- Two free slots for waiters.
abbrev pub waiters : Pool Waiter
waiters = fresh 1 (blank ∷ blank ∷ []) (pos 0 ∷ pos 0 ∷ [])

pub waiters-Inv : Inv waiters (0 ∷ 1 ∷ [])
waiters-Inv = fresh-Inv 1 (blank ∷ blank ∷ []) (pos 0 ∷ pos 0 ∷ []) refl refl

abbrev pub shared : Shared
shared = record { ack_pool = waiters; next_correlation_id = 9 }

abbrev ack : Incoming
ack = record { address = 8192; content = payload; size = 40; user = user_data }

-- The reply comes after the wait has run out, but before the call is cancelled; a second copy of it
-- comes after that.
abbrev pub environment : Environment
environment = record {
  mach_msg = sends;
  now = clock;
  event_made = true;
  before = [];
  late = ack ∷ [];
  cancelled = ack ∷ [];
}

-- The first waiter waits for correlation id 9 in slot 0.
abbrev waiting : Pool Waiter
waiting = registered waiters 0 9

waiting-Inv : Inv waiting (1 ∷ [])
waiting-Inv = (registered-Held waiters-Inv 9).inv

-- WACK and type 1.
abbrev pub request_id : ℕ
request_id = 0x87500301

abbrev ack_message : Received
ack_message = record {
  result = success;
  id = 0x87500501;
  remote_port = reply_port;
  descriptor_count = 2;
  is_ool = true;
  payload = record { address = 8192; size = 40 };
  content = payload;
  user = user_data;
  not_port = 0;
}

handler : ℕ → Received → Bool → Reply ℕ
handler n m native = record { clean_up = true; remote_port = m.remote_port; context = suc n }

protocol_send_with_ack-Sound_example :
    Sound environment 88 reply_port request_id payload 40 user_data timeout_ms shared (0 ∷ 1 ∷ [])
protocol_send_with_ack-Sound_example =
    protocol_send_with_ack-Sound environment 88 reply_port request_id payload 40 user_data
      timeout_ms shared (0 ∷ 1 ∷ []) waiters-Inv

protocol_send_with_ack_lem_example :
    (after : Pool Waiter) × (protocol_send_with_ack environment shared 88 reply_port request_id
        (some payload)
        40
        user_data
        timeout_ms
      ≡ some (
        expected environment 9 0 timeout_ms,
        record { ack_pool = after; next_correlation_id = next_id 9 },
      ))
    × (expected environment 9 0 timeout_ms ≢ waits_forever → Inv after (0 ∷ 1 ∷ []))
unfolding protocol_send_message set_feature
protocol_send_with_ack_lem_example =
    protocol_send_with_ack_lem environment 88 reply_port request_id payload 40 user_data timeout_ms
      shared 0 (1 ∷ []) waiters-Inv (omega arith) (omega arith) refl refl

handle_ack_message_owner_example : Owned waiting (1 ∷ []) ack
handle_ack_message_owner_example = handle_ack_message_owner ack waiting-Inv

receive_ack_owner_example :
    (receive handler (0, waiting) ack_message ≡ some (clean reply_port ack_message, (0, waiting)))
    ⊎ ((i : ℕ) × (matches (waiter waiting i).correlation_id i (ack_of ack_message) ≡ true)
        × (receive handler (0, waiting) ack_message
            ≡ some (
              [],
              (
                0,
                with_slots waiting (
                    set waiting.slots i
                      (with_reply (waiter waiting i) (some (ack_of ack_message)))),
              ),
            )))
unfolding is_this_protocol_msg has_feature is_well_formed
receive_ack_owner_example =
    receive_ack_owner handler 0 waiting ack_message waiting-Inv refl refl refl refl

protocol_send_message_sends_example :
    (((protocol_send_message sends clock 88 reply_port request_id
          (some payload)
          40
          user_data
          timeout_ms).message
        ≢ none)
      ↔ ((◌≢◌ {A = Option Payload} (some payload) none)
          × (sizeof_payload ≤ 40)
          × ((timeout_ms ≡ 0) ⊎ (user_ply_safety_ms ≤ timeout_ms))))
    × (((protocol_send_message sends clock 88 reply_port request_id
            (some payload)
            40
            user_data
            timeout_ms).message
          ≡ none)
        → (protocol_send_message sends clock 88 reply_port request_id
            (some payload)
            40
            user_data
            timeout_ms).result
          ≡ invalid_argument)
    × ((m : Message)
        → (protocol_send_message sends clock 88 reply_port request_id
            (some payload)
            40
            user_data
            timeout_ms).message
          ≡ some m
        → (protocol_send_message sends clock 88 reply_port request_id
            (some payload)
            40
            user_data
            timeout_ms).result
          ≡ sends m)
protocol_send_message_sends_example =
    protocol_send_message_sends sends clock 88 reply_port request_id (some payload) 40 user_data
      timeout_ms

abbrev request : Message
request = record {
  is_complex = true;
  remote_disposition = copy_send;
  local_disposition = move_send;
  remote_port = 88;
  local_port = reply_port;
  id = request_id;
  descriptor_count = 2;
  payload = record payload { user_payload_deadline = record { tv_sec = 8; tv_nsec = 99000000 } };
  payload_size = 40;
  user_payload = user_data;
}

request_is_sent :
    (protocol_send_message sends clock 88 reply_port request_id
      (some payload)
      40
      user_data
      timeout_ms).message
    ≡ some request
unfolding protocol_send_message has_feature calc_deadline
request_is_sent = refl

protocol_send_message_header_example :
    (payload.correlation_id ≡ (
      if has_feature feature_wack request_id || has_feature feature_iack request_id
      then payload.correlation_id
      else 0))
    × (payload.correlation_slot ≡ (
        if has_feature feature_wack request_id || has_feature feature_iack request_id
        then payload.correlation_slot
        else minus_one))
    × (move_send ≡ (
        if reply_port == port_null
        then nothing
        else if has_feature feature_lpcy request_id
        then copy_send
        else move_send))
    × (reply_port ≡ port_null → has_feature feature_lpcy request_id ≡ false)
protocol_send_message_header_example =
    protocol_send_message_header sends clock 88 reply_port request_id payload 40 user_data
      timeout_ms {m = request} (omega arith) request_is_sent

protocol_send_ack_lem_example :
    (m : Message) × ((protocol_send_ack sends clock 88 request_id 9
        (pos 0)
        payload
        40
        user_data).message
      ≡ some m)
    × (m.payload.correlation_id ≡ 9)
    × (m.payload.correlation_slot ≡ pos 0)
    × (m.payload.status ≡ pos 0)
    × (m.remote_port ≡ 88)
    × (m.local_disposition ≡ nothing)
    × (has_feature feature_iack m.id ≡ true)
    × (has_feature feature_wack m.id ≡ false)
    × (user_msg_type m.id ≡ user_msg_type request_id)
protocol_send_ack_lem_example =
    protocol_send_ack_lem sends clock 88 request_id 9 0 payload 40 user_data (omega arith)
      (omega arith) (omega arith)

-- No acknowledgment ever comes.
abbrev silence : Environment
silence = record environment { before = []; late = []; cancelled = [] }

protocol_send_with_ack_returns_example :
    (k : KernReturn) × (reply : Option Incoming) × (after : Shared) × (protocol_send_with_ack
        silence shared 88 reply_port request_id
        (some payload)
        40
        user_data
        timeout_ms
      ≡ some (returned k reply, after))
    × Inv after.ack_pool (0 ∷ 1 ∷ [])
protocol_send_with_ack_returns_example =
    protocol_send_with_ack_returns silence 88 reply_port request_id payload 40 user_data timeout_ms
      (omega arith) shared (0 ∷ 1 ∷ []) waiters-Inv
