-- ===== src/Server/Tests.antt =====
-- A server at concrete inputs, and the lemmas about it applied.
use mach_ipc.Base.{
  false, ℕ, ◌+◌, ◌≤◌, ◌≡◌, refl, true, Option, none, some, List, [], ◌∷◌, replicate, pos, minus_one,
  ◌==◌, arith,
}
use mach_ipc.Base.{◌^◌, if◌then◌else◌}
use mach_ipc.Protocol.Types.{Buffer, ipc_success, ipc_error_send_failed, ipc_error_client_full}
use mach_ipc.Resources.Cleanup.{
  has_receive_right, Machine, free, pool_free, tracker_free, tracker_lock_destroy, mutex_destroy,
  port_destruct,
}
use mach_ipc.Server.Clients.{take_id, find_client_by_port_locked, find_client, search_from}
use mach_ipc.Server.Clients.Count.{Counted, present}
use mach_ipc.Server.Host.{queue_released, port_deallocated, client_freed, sent}
use mach_ipc.Server.Connect.{reply_to}
use mach_ipc.Server.Connect.Laws.{connect_when_full}
use mach_ipc.Server.Broadcast.{mach_server_broadcast}
use mach_ipc.Server.Broadcast.Laws.{all_sent, messages, active_clients, mach_server_broadcast_lem}
use mach_ipc.Server.Life.{mach_server_run, Server, mach_server_create, mach_server_destroy}
use mach_ipc.Server.Life.Run.{mach_server_run-Valid}
use mach_ipc.Server.Life.Laws.{allocated, mach_server_destroy-create}
use mach_ipc.Pool.{Pool}
use mach_ipc.Protocol.Ack.{Waiter}
use mach_ipc.Pool.Inv.{Inv}
use mach_ipc.Pool.Init.{fresh, fresh-Inv}
use mach_ipc.Protocol.Types.{success, Payload}
use mach_ipc.Protocol.Ack.Deliver.{blank}
use mach_ipc.Protocol.Receive.{Received, Dealloc}
use mach_ipc.Server.Clients.{Client, Table}
use mach_ipc.Server.Clients.Count.{Unlisted}
use mach_ipc.Server.Clients.Valid.{Valid}
use mach_ipc.Server.Host.{Host, Effect}
use mach_ipc.Server.Connect.{handle_connect_request}
use mach_ipc.Server.Connect.Laws.{
  AllocatesFresh, Connects, handle_connect_request_lem, handle_connect_request-Valid,
}
use mach_ipc.Server.Handler.{mach_notify_dead_name, handle_death_notification}
use mach_ipc.Server.Handler.Laws.{Forgets, handle_death_notification_lem}
use mach_ipc.Server.Life.{no_clients}
use mach_ipc.Server.Life.Laws.{no_clients-Valid}
use mathlib.Core.Option.{some-injective}

-- An allocator whose addresses lie above all that are listed.
abbrev above : List (Option Client) → ℕ
above [] = 1
above (none ∷ cs) = above cs
above (some c ∷ cs) = c.address + above cs

above_positive : (cs : List (Option Client)) → 1 ≤ above cs
above_positive [] = omega arith
above_positive (none ∷ cs) = above_positive cs
above_positive (some c ∷ cs) = omega (arith, above_positive cs)

above-Unlisted : (cs : List (Option Client)) (a : ℕ) → above cs ≤ a → Unlisted a cs
above-Unlisted [] a h = tt
above-Unlisted (none ∷ cs) a h = above-Unlisted cs a h
above-Unlisted (some c ∷ cs) a h =
    (ground (arith, above_positive cs, h), above-Unlisted cs a (omega arith))

abbrev waiters : Pool Waiter
waiters = fresh 1 (blank ∷ blank ∷ []) (pos 0 ∷ pos 0 ∷ [])

abbrev host : Host
host = record {
  mach_msg = λ m. success;
  now = record { tv_sec = 7; tv_nsec = 0 };
  create = λ t. some (above t.clients);
  request_notification = λ port. success;
  on_connected = true;
  on_disconnected = true;
}

host-AllocatesFresh : AllocatesFresh host
host-AllocatesFresh t a e = above-Unlisted t.clients a (omega (arith, some-injective _ _ e))

abbrev content : Payload
content = record {
  client_id = 0;
  client_slot = minus_one;
  correlation_id = 1;
  correlation_slot = pos 0;
  status = pos 0;
  user_payload_deadline = record { tv_sec = 0; tv_nsec = 0 };
}

-- A connection request from port 55.
abbrev connect : Received
connect = record {
  result = success;
  id = 0x87500301;
  remote_port = 55;
  descriptor_count = 2;
  is_ool = true;
  payload = record { address = 8192; size = 40 };
  content = content;
  user = record { address = 0; size = 0 };
  not_port = 0;
}

-- Port 55 is dead.
abbrev death : Received
death = record connect { id = mach_notify_dead_name; not_port = 55 }

-- The list with the client that `connect` has added.
abbrev one_client : Table
one_client = (handle_connect_request host no_clients connect).0

one_client-Valid : Valid one_client
one_client-Valid =
    (handle_connect_request-Valid host no_clients connect host-AllocatesFresh no_clients-Valid
      (omega arith)).0

handle_connect_request_lem_example :
    Connects host no_clients connect (handle_connect_request host no_clients connect)
handle_connect_request_lem_example =
    handle_connect_request_lem host no_clients connect host-AllocatesFresh

handle_death_notification_lem_example :
    Forgets host one_client 55 (handle_death_notification host one_client death)
handle_death_notification_lem_example =
    handle_death_notification_lem host one_client death one_client-Valid

abbrev server : Server
server = record {
  address = 1000;
  table = no_clients;
  ack = record { ack_pool = waiters; next_correlation_id = 1 };
  running = false;
  resources = none;
}

mach_server_run-Valid_example :
    (s' : Server) × (ds : List Dealloc) × (effects : List Effect) × (mach_server_run host
        (some server)
        ((true, connect) ∷ (true, death) ∷ [])
      ≡ some (ipc_success, some s', ds, effects))
    × Valid s'.table
    × Inv s'.ack.ack_pool (0 ∷ 1 ∷ [])
mach_server_run-Valid_example =
    mach_server_run-Valid host server ((true, connect) ∷ (true, death) ∷ []) host-AllocatesFresh
      no_clients-Valid (omega arith)
      (fresh-Inv 1 (blank ∷ blank ∷ []) (pos 0 ∷ pos 0 ∷ []) refl refl)

abbrev settled : Client
settled = record { address = 1000; id = 1; port = 88; active = true }

abbrev full : Table
full = record { clients = replicate 100 (some settled); client_count = 100; next_client_id = 101 }

full-Counted : Counted full
unfolding present
full-Counted = record { sized = refl; counted = refl }

connect_when_full_example : handle_connect_request host full connect ≡ (
  take_id full,
  queue_released 100001
      ∷ port_deallocated 55
      ∷ client_freed 100001
      ∷ sent (reply_to host connect 101 minus_one ipc_error_client_full)
      ∷ [],
)
unfolding find_client_by_port_locked find_client search_from
connect_when_full_example =
    connect_when_full host full connect 100001 full-Counted refl (omega arith) refl refl

-- Slot 1 is free.
abbrev two_clients : Table
two_clients = record {
  clients = some settled ∷ none ∷ some (record settled { id = 2; port = 99; address = 2000 }) ∷ [];
  client_count = 2;
  next_client_id = 3;
}

abbrev user : Buffer
user = record { address = 4096; size = 16 }

mach_server_broadcast_lem_example :
    mach_server_broadcast host.mach_msg host.now 5 user true two_clients
    ≡ some (
      if all_sent host.mach_msg host.now 5 user (active_clients two_clients.clients)
          then ipc_success
          else ipc_error_send_failed,
      messages host.mach_msg host.now 5 user (active_clients two_clients.clients),
    )
mach_server_broadcast_lem_example =
    mach_server_broadcast_lem host.mach_msg host.now 5 user two_clients
      (omega arith, (omega arith, tt))

-- Port 99 is a receive right.
abbrev port_type : ℕ → Option ℕ
port_type p = some (if p == 99 then 2 ^ 17 else 2 ^ 16)

abbrev machine : Machine
machine = record { cells = λ a. 0; calls = [] }

mach_server_destroy-create_example :
    (s : Server) × (m' : Machine) × (mach_server_create port_type
        (allocated port_type 1000 [] [] success 99 machine)
        true
        machine
      ≡ some (some s, m'))
    × (mach_server_destroy port_type (some s) m' ≡ (
      [],
      record m' {
        cells = λ a. if 1001 == a then 0 else m'.cells a;
        calls =
            free 1000
            ∷ tracker_free
            ∷ tracker_lock_destroy
            ∷ pool_free 1002
            ∷ mutex_destroy 1003
            ∷ mutex_destroy 1004
            ∷ port_destruct 99
            ∷ [];
      },
    ))
unfolding has_receive_right
mach_server_destroy-create_example =
    mach_server_destroy-create port_type 1000 [] [] success 99 machine refl (omega arith)
