-- ===== src/Message/Tests.antt =====
-- Messages at concrete inputs, and the lemmas about them applied.
use mach_ipc.Base.{◌≡◌, ◌≢◌, refl, true, false, none, some, pos, minus_one, arith}
use mach_ipc.MsgId.{feature_wack, has_feature}
use mach_ipc.Deadline.{Timespec, user_payload_is_save}
use mach_ipc.Protocol.Types.{ipc_error_timeout, KernReturn, success, Payload, Message}
use mach_ipc.Protocol.Send.{Sent}
use mach_ipc.Protocol.Receive.{Received, clean}
use mach_ipc.Message.{Callbacks, Origin, process, acknowledge, process_with_reply, no_data}
use mach_ipc.Message.Laws.{Answers, IsUncorrelated, process_lem, process_ack}

abbrev sends : Message → KernReturn
sends m = success

-- The callback replies with its input and status 7, and takes the remote port.
abbrev callbacks : Callbacks
callbacks = record {
  on_message_with_reply =
      some (λ port type data_in. record { remote_port = 0; reply = data_in; status = pos 7 });
  on_message = none;
}

abbrev origin : Origin
origin = record { port = 88; client_id = 0; client_slot = minus_one }

abbrev content : Payload
content = record {
  client_id = 3;
  client_slot = pos 2;
  correlation_id = 9;
  correlation_slot = pos 4;
  status = pos 0;
  user_payload_deadline = record { tv_sec = 8; tv_nsec = 0 };
}

-- WACK and type 1.
abbrev message : Received
message = record {
  result = success;
  id = 0x87500201;
  remote_port = 55;
  descriptor_count = 2;
  is_ool = true;
  payload = record { address = 8192; size = 40 };
  content = content;
  user = record { address = 4096; size = 16 };
  not_port = 0;
}

abbrev in_time : Timespec
in_time = record { tv_sec = 7; tv_nsec = 0 }

abbrev too_late : Timespec
too_late = record { tv_sec = 9; tv_nsec = 0 }

process_lem_example :
    ((process sends too_late callbacks origin message).read ≢ none
      → user_payload_is_save too_late content.user_payload_deadline ≡ true)
    × ((process sends too_late callbacks origin message).read ≡ none
        → (process sends too_late callbacks origin message).remote_port ≡ message.remote_port)
    × ((process sends too_late callbacks origin message).deallocs
        ≡ clean (process sends too_late callbacks origin message).remote_port message)
    × ((process sends too_late callbacks origin message).ack ≢ none
        → has_feature feature_wack message.id ≡ true)
    × (has_feature feature_wack message.id ≡ true
        → user_payload_is_save too_late content.user_payload_deadline ≡ false
        → (process sends too_late callbacks origin message).ack
          ≡ some (acknowledge sends too_late origin message ipc_error_timeout no_data))
    × (IsUncorrelated message
        → (sent : Sent) → (process sends too_late callbacks origin message).ack ≡ some sent
        → sent.message ≡ none)
process_lem_example = process_lem sends too_late callbacks origin message

abbrev answer : Sent
answer = acknowledge sends in_time origin message (pos 7) message.user

process_ack_example : Answers origin message 4 answer
unfolding process process_with_reply has_feature user_payload_is_save
process_ack_example =
    process_ack sends in_time callbacks origin message 4 answer (omega arith) (omega arith) refl
      refl
