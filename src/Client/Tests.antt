-- ===== src/Client/Tests.antt =====
-- A client at concrete inputs, and the lemmas about it applied.
use mach_ipc.Base.{
  ℕ, ◌≡◌, refl, true, false, Option, some, List, [], ◌∷◌, ℤ, pos, replicate, arith, if◌then◌else◌,
  ◌==◌, ◌^◌,
}
use mach_ipc.MsgId.{set_feature}
use mach_ipc.Pool.{Pool}
use mach_ipc.Pool.Inv.{Inv}
use mach_ipc.Pool.Init.{count_up, fresh-Inv}
use mach_ipc.Protocol.Types.{KernReturn, success, Message}
use mach_ipc.Protocol.Send.{protocol_send_message}
use mach_ipc.Protocol.Ack.{Incoming, Waiter}
use mach_ipc.Protocol.Ack.Deliver.{blank}
use mach_ipc.Protocol.WithAck.{Shared}
use mach_ipc.Protocol.WithAck.Laws.{expected, outcome_by, outcome_of}
use mach_ipc.Protocol.Ack.Waiters.{last_match}
use mach_ipc.Protocol.Receive.{Received, Dealloc, protocol_receive_loop}
use mach_ipc.Resources.Cleanup.{
  has_receive_right, Machine, free, tracker_free, tracker_lock_destroy, pool_free, queue_drain,
  queue_release, thread_join, mutex_destroy, port_deallocate, port_destruct,
}
use mach_ipc.Server.Handler.{mach_notify_dead_name}
use mach_ipc.Client.State.{MachClient}
use mach_ipc.Client.Life.{mach_client_destroy}
use mach_ipc.Client.Life.Laws.{made, variables, mach_client_destroy-connect}
use mach_ipc.Client.Connect.{Answers, Result, no_loss, mach_client_connect}
use mach_ipc.Client.Connect.Results.{connected_by}
use mach_ipc.Client.Connect.Success.{mach_client_connect_succeeds}
use mach_ipc.Client.Handler.{Context, client_message_handler}
use mach_ipc.Client.Handler.Laws.{Told, client_loop-Told}

-- Port 88 has a send right only, port 99 is a receive right.
abbrev port_type : ℕ → Option ℕ
port_type p = some (if p == 99 then 2 ^ 17 else 2 ^ 16)

abbrev slots : List Waiter
slots = replicate 256 blank

abbrev next : List ℤ
next = replicate 256 (pos 0)

abbrev machine : Machine
machine = record { cells = λ a. 0; calls = [] }

abbrev client : MachClient
client = made port_type 1000 slots next 77 machine

abbrev before : Machine
before = variables port_type 1000 slots next 77 machine

abbrev client-Inv : Inv client.ack.ack_pool (count_up 0 256)
client-Inv = fresh-Inv 255 slots next refl refl

abbrev sends : Message → KernReturn
sends m = success

-- Accepted with id 3 in slot 2.
abbrev ack : Incoming
ack = record {
  address = 8192;
  content = record {
    client_id = 3;
    client_slot = pos 2;
    correlation_id = 1;
    correlation_slot = pos 0;
    status = pos 0;
    user_payload_deadline = record { tv_sec = 0; tv_nsec = 0 };
  };
  size = 40;
  user = record { address = 0; size = 0 };
}

abbrev answers : Answers
answers = record {
  look_up = (success, 88);
  allocate = (success, 99);
  insert_right = success;
  request_notification = success;
  thread_made = (true, 123);
  env = record {
    mach_msg = sends;
    now = record { tv_sec = 7; tv_nsec = 0 };
    event_made = true;
    before = ack ∷ [];
    late = [];
    cancelled = [];
  };
  on_connected = true;
  loss = no_loss;
  on_disconnected = true;
}

mach_client_connect_succeeds_example :
    (after : Shared) × (mach_client_connect answers client before 100
      ≡ some (some (connected_by answers client before after ack)))
    × Inv after.ack_pool (0 ∷ count_up 1 255)
unfolding protocol_send_message set_feature expected outcome_by outcome_of last_match
mach_client_connect_succeeds_example =
    mach_client_connect_succeeds answers client before 100 0 (count_up 1 255) ack refl
      (fresh-Inv 255 slots next refl refl) (omega arith)
      (record {
        found = refl;
        allocated = refl;
        right = refl;
        notifies = refl;
        thread = refl;
        event = refl;
      })
      refl refl (omega arith) refl

connects :
    (after : Shared) × (mach_client_connect answers client before 100
      ≡ some (some (connected_by answers client before after ack)))
    × Inv after.ack_pool (0 ∷ count_up 1 255)
unfolding protocol_send_message set_feature expected outcome_by outcome_of last_match
connects =
    mach_client_connect_succeeds answers client before 100 0 (count_up 1 255) ack refl
      (fresh-Inv 255 slots next refl refl) (omega arith)
      (record {
        found = refl;
        allocated = refl;
        right = refl;
        notifies = refl;
        thread = refl;
        event = refl;
      })
      refl refl (omega arith) refl

abbrev after : Shared
after = connects.0

abbrev connected : Result
connected = connected_by answers client before after ack

mach_client_destroy-connect_example :
    (mach_client_destroy port_type true (some connected.client) connected.machine).1.calls
    ≡ free 1000
      ∷ tracker_free
      ∷ tracker_lock_destroy
      ∷ pool_free 1005
      ∷ queue_release 77
      ∷ queue_drain 77
      ∷ mutex_destroy 1006
      ∷ port_deallocate 88
      ∷ port_destruct 99
      ∷ thread_join 123
      ∷ queue_drain 77
      ∷ thread_join 123
      ∷ []
unfolding has_receive_right
mach_client_destroy-connect_example =
    mach_client_destroy-connect port_type 1000 slots next 77 machine true (omega arith) answers
      (omega arith) (omega arith) (omega arith) refl refl 100 connected connects.1 refl

-- The server's port is dead.
abbrev death : Received
death = record {
  result = success;
  id = mach_notify_dead_name;
  remote_port = 0;
  descriptor_count = 0;
  is_ool = false;
  payload = record { address = 0; size = 0 };
  content = ack.content;
  user = record { address = 0; size = 0 };
  not_port = 88;
}

client_loop-Told_example :
    (ds : List Dealloc) × (s : Context) × (q : Pool Waiter) × (protocol_receive_loop
        (client_message_handler true)
        ((connected.client, []), client.ack.ack_pool)
        ((true, death) ∷ [])
      ≡ some (ds, (s, q)))
    × Told connected.client s
    × Inv q (count_up 0 256)
client_loop-Told_example =
    client_loop-Told connected.client ((true, death) ∷ []) client.ack.ack_pool
      (fresh-Inv 255 slots next refl refl)
