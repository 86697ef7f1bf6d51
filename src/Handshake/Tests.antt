-- ===== src/Handshake/Tests.antt =====
-- A connection at concrete inputs, and the lemma about it applied.
use mach_ipc.Base.{
  ℕ, ◌≡◌, refl, true, false, none, some, List, [], ◌∷◌, ℤ, replicate, get_or, pos, arith,
}
use mach_ipc.MsgId.{
  set_feature, unset_feature, has_feature, ack_msg_id, internal_msg_id, msg_id_connect,
  is_internal_msg, is_internal_msg_type,
}
use mach_ipc.Pool.Inv.{Inv}
use mach_ipc.Pool.Init.{fresh, fresh-Inv}
use mach_ipc.Protocol.Types.{success}
use mach_ipc.Protocol.Send.{
  protocol_send_message, protocol_send_ack, send_payload, hand_over, clear_correlation,
}
use mach_ipc.Protocol.Ack.{Incoming, Waiter}
use mach_ipc.Protocol.Ack.Deliver.{blank}
use mach_ipc.Protocol.WithAck.{Shared}
use mach_ipc.Protocol.Receive.{Received}
use mach_ipc.Resources.Cleanup.{Machine}
use mach_ipc.Server.Clients.{
  find_client_by_port_locked, find_client, search_from, add_client, free_slot,
}
use mach_ipc.Server.Host.{Host, create_client}
use mach_ipc.Server.Connect.{
  handle_connect_request, attempt, unless_connected, create_and_enlist, enlist, watch, answer,
  conclude, reply_to,
}
use mach_ipc.Server.Handler.{server_message_handler, handle_protocol}
use mach_ipc.Server.Life.{no_clients}
use mach_ipc.Server.Life.Laws.{no_clients-Valid}
use mach_ipc.Client.State.{MachClient}
use mach_ipc.Client.Connect.{Answers, no_loss, mach_client_connect}
use mach_ipc.Client.Connect.Results.{connected_by}
use mach_ipc.Handshake.{handshake}

abbrev host : Host
host = record {
  mach_msg = λ m. success;
  now = record { tv_sec = 7; tv_nsec = 0 };
  create = λ t. some 5000;
  request_notification = λ port. success;
  on_connected = true;
  on_disconnected = true;
}

-- The client's correlation id is 1, and its waiter is in slot 0.
abbrev request : Received
request = record {
  result = success;
  id = 0x87500301;
  remote_port = 55;
  descriptor_count = 2;
  is_ool = true;
  payload = record { address = 8192; size = 40 };
  content = record {
    client_id = 0;
    client_slot = pos 0;
    correlation_id = 1;
    correlation_slot = pos 0;
    status = pos 0;
    user_payload_deadline = record { tv_sec = 0; tv_nsec = 0 };
  };
  user = record { address = 0; size = 0 };
  not_port = 0;
}

abbrev reply_ack : Incoming
reply_ack = record {
  address = 8192;
  content = record {
    client_id = 1;
    client_slot = pos 0;
    correlation_id = 1;
    correlation_slot = pos 0;
    status = pos 0;
    user_payload_deadline = record { tv_sec = 0; tv_nsec = 0 };
  };
  size = 40;
  user = record { address = 0; size = 0 };
}

abbrev slots : List Waiter
slots = replicate 2 blank

abbrev next : List ℤ
next = replicate 2 (pos 0)

abbrev client : MachClient
client = record {
  address = 1000;
  connected = false;
  running = false;
  client_id = 0;
  client_slot = pos 0;
  ack = record { ack_pool = fresh 1 slots next; next_correlation_id = 1 };
  resources = some (record { resources = [] });
}

abbrev machine : Machine
machine = record { cells = λ a. 0; calls = [] }

abbrev granted : Answers
granted = record {
  look_up = (success, 88);
  allocate = (success, 99);
  insert_right = success;
  request_notification = success;
  thread_made = (true, 123);
  env = record {
    mach_msg = λ m. success;
    now = record { tv_sec = 7; tv_nsec = 0 };
    event_made = true;
    before = reply_ack ∷ [];
    late = [];
    cancelled = [];
  };
  on_connected = true;
  loss = no_loss;
  on_disconnected = true;
}

handshake_example :
    (slot : ℕ) × (after : Shared) × (mach_client_connect granted client machine 100
      ≡ some (some (connected_by granted client machine after reply_ack)))
    × (reply_ack.content.client_slot ≡ pos slot)
    × (get_or
          (server_message_handler host (no_clients, []) request false).context.0.clients
          slot
          none
        ≡ some (create_client 5000 1 55))
    × Inv after.ack_pool (0 ∷ 1 ∷ [])
unfolding protocol_send_message set_feature unset_feature has_feature ack_msg_id internal_msg_id
    msg_id_connect is_internal_msg is_internal_msg_type protocol_send_ack send_payload hand_over
    clear_correlation find_client_by_port_locked find_client search_from add_client free_slot
    handle_connect_request attempt unless_connected create_and_enlist enlist watch answer conclude
    reply_to server_message_handler handle_protocol
handshake_example =
    handshake host no_clients request 5000 granted client machine 100 0 (1 ∷ []) reply_ack
      (record {
        counted = no_clients-Valid.counted;
        room = omega arith;
        absent = refl;
        made = refl;
        notified = refl;
        sends = λ x. refl;
      })
      (record { id = refl; port = omega arith; correlation_id = refl; correlation_slot = refl })
      refl (fresh-Inv 1 slots next refl refl) (omega arith)
      (record {
        found = refl;
        allocated = refl;
        right = refl;
        notifies = refl;
        thread = refl;
        event = refl;
      })
      refl refl (omega arith) refl
