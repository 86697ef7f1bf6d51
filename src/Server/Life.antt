-- ===== src/Server/Life.antt =====
-- src/server.c, `mach_server_create`, `mach_server_run`, `mach_server_stop` and `mach_server_destroy`,
-- over the variables and calls of the resource tracker.
pub mod Laws
pub mod Run
use mach_ipc.Base.{
  ℕ, ◌+◌, Bool, true, false, Option, none, some, ◌>>=◌, List, [], ◌∷◌, ◌++◌, ℤ, pos, replicate,
  ◌==◌, if◌then◌else◌,
}
use mach_ipc.Pool.{Pool, pool_init}
use mach_ipc.Protocol.Types.{KernReturn, is_success, ipc_success, ipc_error_invalid_param}
use mach_ipc.Protocol.Ack.{Waiter}
use mach_ipc.Protocol.WithAck.{Shared}
use mach_ipc.Protocol.Receive.{Received, Dealloc, protocol_receive_loop}
use mach_ipc.Resources.Cleanup.{port, mutex, pool, Machine, free, call, clear}
use mach_ipc.Resources.{
  Tracker, resource_tracker_create, resource_tracker_add, resource_tracker_destroy,
}
use mach_ipc.Server.Clients.{Client, Table, max_clients}
use mach_ipc.Server.Host.{Host, Effect, destroy_client}
use mach_ipc.Server.Handler.{Context, server_message_handler}

-- MAX_ACKS
abbrev pub max_acks : ℕ
max_acks = 256

-- `mach_server` at an address. `service_port` is a variable of the machine, since the tracker clears
-- it; callbacks are part of the host.
pub record Server : Type 0 where
  pub address : ℕ
  pub table : Table
  pub ack : Shared
  pub running : Bool
  pub resources : Option Tracker

-- The addresses of the tracked fields. Only that they are distinct and not null matters.
abbrev pub service_port_at : ℕ → ℕ
service_port_at address = address + 1

abbrev pub ack_pool_at : ℕ → ℕ
ack_pool_at address = address + 2

abbrev pub clients_lock_at : ℕ → ℕ
clients_lock_at address = address + 3

abbrev pub ack_lock_at : ℕ → ℕ
ack_lock_at address = address + 4

-- The functions that are passed as custom cleanups, which the tracker does not call for these types.
abbrev pub pool_free_function : Option ℕ
pool_free_function = some 1

abbrev pub mutex_destroy_function : Option ℕ
mutex_destroy_function = some 2

-- `*res = value`
abbrev pub assign : Machine → (address value : ℕ) → Machine
assign m a value = record m { cells = λ b. if a == b then value else m.cells b }

-- What the tracker holds before the service port is there.
abbrev pub track_locks : (address : ℕ) → Option Tracker → Option Tracker
track_locks address tracker =
    let with_pool =
      (resource_tracker_add tracker pool (ack_pool_at address) pool_free_function).1 in
    let with_clients_lock =
      (resource_tracker_add with_pool mutex (clients_lock_at address) mutex_destroy_function).1 in
    (resource_tracker_add with_clients_lock mutex (ack_lock_at address) mutex_destroy_function).1

abbrev pub no_clients : Table
no_clients = record { clients = replicate max_clients none; client_count = 0; next_client_id = 1 }

-- `for (int i = 0; i < MAX_CLIENTS; i++)`; the slots are set to null.
pub destroy_clients : List (Option Client) → List Effect
destroy_clients [] = []
destroy_clients (none ∷ cs) = destroy_clients cs
destroy_clients (some c ∷ cs) = destroy_client c ++ destroy_clients cs

-- The effects on clients come before those that the machine records. `mach_server_stop` only changes
-- the object, which is freed.
pub mach_server_destroy : (ℕ → Option ℕ) → Option Server → Machine → List Effect × Machine
unfolding destroy_clients
mach_server_destroy port_type none m = ([], m)
mach_server_destroy port_type (some s) m = (
  destroy_clients s.table.clients,
  call (resource_tracker_destroy port_type s.resources m) (free s.address),
)

-- `bootstrap_check_in` has answered.
checked_in : (ℕ → Option ℕ) → Server → KernReturn × ℕ → Machine → Option Server × Machine
unfolding mach_server_destroy
checked_in port_type s (kr, service_port) m =
    if is_success kr
    then (
      some (record s {
        resources = (resource_tracker_add s.resources port (service_port_at s.address) none).1;
      }),
      assign m (service_port_at s.address) service_port,
    )
    else (none, (mach_server_destroy port_type (some s) m).1)

-- The answers of the system: the address from `calloc`, whether a tracker could be allocated, what
-- `malloc` gives for the pool, and the answer of `bootstrap_check_in` with the port.
pub record Startup : Type 0 where
  pub address : Option ℕ
  pub tracker_made : Bool
  pub slots : List Waiter
  pub next : List ℤ
  pub check_in : KernReturn × ℕ

with_tracker :
    (ℕ → Option ℕ)
    → Startup
    → (address : ℕ) → Option Tracker
    → Machine
    → Option (Option Server × Machine)
unfolding checked_in
with_tracker port_type e address none m = some (none, call m (free address))
with_tracker port_type e address (some tracker) m = do
  ack_pool ← pool_init max_acks e.slots e.next
  some (
      checked_in port_type
        (record {
          address = address;
          table = no_clients;
          ack = record { ack_pool = ack_pool; next_correlation_id = 1 };
          running = false;
          resources = track_locks address (some tracker);
        })
        e.check_in m)

with_memory : (ℕ → Option ℕ) → Startup → Option ℕ → Machine → Option (Option Server × Machine)
unfolding with_tracker
with_memory port_type e none m = some (none, m)
with_memory port_type e (some address) m =
    with_tracker port_type e address (resource_tracker_create e.tracker_made)
      (clear m (service_port_at address))

-- A null server is `none` inside. The ids are set behind the check-in, which does not use them.
pub mach_server_create :
    (ℕ → Option ℕ)
    → Startup
    → (service_name_given : Bool) → Machine
    → Option (Option Server × Machine)
unfolding with_memory
mach_server_create port_type e false m = some (none, m)
mach_server_create port_type e true m = with_memory port_type e e.address m

pub mach_server_stop : Option Server → Option Server
mach_server_stop none = none
mach_server_stop (some s) = some (record s { running = false })

abbrev after_run :
    Server → List Dealloc × (Context × Pool Waiter) → ℤ × Option Server × List Dealloc × List Effect
after_run s (ds, ((t, effects), q)) = (
  ipc_success,
  some (record s {
    running = false;
    table = t;
    ack = record { ack_pool = q; next_correlation_id = s.ack.next_correlation_id };
  }),
  ds,
  effects,
)

-- The messages come with the values of `running` that the loop sees.
pub mach_server_run :
    Host
    → Option Server
    → List (Bool × Received)
    → Option (ℤ × Option Server × List Dealloc × List Effect)
mach_server_run h none ms = some (ipc_error_invalid_param, none, [], [])
mach_server_run h (some s) ms = do
  r ← protocol_receive_loop (server_message_handler h) ((s.table, []), s.ack.ack_pool) ms
  some (after_run s r)
