-- ===== src/Client/Life.antt =====
-- src/client.c, `mach_client_create`, `mach_client_disconnect`, `mach_client_destroy` and
-- `mach_client_is_connected`.
pub mod Laws
use mach_ipc.Base.{
  ℕ, Bool, true, false, Option, none, some, ◌>>=◌, List, [], ◌∷◌, ℤ, pos, ◌==◌, if◌then◌else◌,
}
use mach_ipc.Pool.{pool_init}
use mach_ipc.Protocol.Ack.{Waiter}
use mach_ipc.Resources.Cleanup.{
  queue, mutex, pool, Machine, free, thread_join, queue_drain, call, clear,
}
use mach_ipc.Resources.{
  Tracker, resource_tracker_create, resource_tracker_add, resource_tracker_cleanup_all,
  resource_tracker_destroy,
}
use mach_ipc.Server.Life.{assign, pool_free_function, mutex_destroy_function}
use mach_ipc.Client.State.{
  MachClient, Notice, disconnection, server_port_at, local_port_at, message_queue_at,
  receiver_thread_at, ack_pool_at, ack_lock_at,
}

-- The answers of the system: the address from `calloc`, whether a tracker could be allocated, what
-- `malloc` gives for the pool, and the queue, 0 for none.
pub record Startup : Type 0 where
  pub address : Option ℕ
  pub tracker_made : Bool
  pub slots : List Waiter
  pub next : List ℤ
  pub message_queue : ℕ

-- MAX_ACKS
abbrev max_acks : ℕ
max_acks = 256

-- `calloc` gives zeroed memory.
abbrev pub zeroed : Machine → (address : ℕ) → Machine
zeroed m a =
    clear (clear (clear (clear m (server_port_at a)) (local_port_at a)) (message_queue_at a))
      (receiver_thread_at a)

-- `dispatch_release`, which the tracker does not call for a queue.
abbrev pub dispatch_release_function : Option ℕ
dispatch_release_function = some 3

-- The pool is tracked, the queue is not yet.
with_queue : (ℕ → Option ℕ) → Startup → MachClient → Machine → Option MachClient × Machine
with_queue port_type e c m =
    if e.message_queue == 0
    then (let (m', resources) = resource_tracker_cleanup_all port_type c.resources m in
        (none, call (resource_tracker_destroy port_type resources m') (free c.address)))
    else (let with_queue =
          (resource_tracker_add c.resources queue (message_queue_at c.address)
            dispatch_release_function).1 in
        (
          some (record c {
            resources =
                (resource_tracker_add with_queue mutex (ack_lock_at c.address)
                  mutex_destroy_function).1;
          }),
          m,
        ))

with_tracker :
    (ℕ → Option ℕ)
    → Startup
    → (address : ℕ) → Option Tracker
    → Machine
    → Option (Option MachClient × Machine)
unfolding with_queue
with_tracker port_type e address none m = some (none, call m (free address))
with_tracker port_type e address (some tracker) m = do
  ack_pool ← pool_init max_acks e.slots e.next
  some (
      with_queue port_type e
        (record {
          address = address;
          connected = false;
          running = false;
          client_id = 0;
          client_slot = pos 0;
          ack = record { ack_pool = ack_pool; next_correlation_id = 1 };
          resources =
              (resource_tracker_add (some tracker) pool (ack_pool_at address) pool_free_function).1;
        })
        (assign m (message_queue_at address) e.message_queue))

with_memory : (ℕ → Option ℕ) → Startup → Option ℕ → Machine → Option (Option MachClient × Machine)
unfolding with_tracker
with_memory port_type e none m = some (none, m)
with_memory port_type e (some address) m =
    with_tracker port_type e address (resource_tracker_create e.tracker_made) (zeroed m address)

-- A null client is `none` inside.
pub mach_client_create : (ℕ → Option ℕ) → Startup → Machine → Option (Option MachClient × Machine)
unfolding with_memory
mach_client_create port_type e m = with_memory port_type e e.address m

pub mach_client_is_connected : Option MachClient → Bool
mach_client_is_connected none = false
mach_client_is_connected (some c) = c.connected

abbrev pub notify : (callback_set : Bool) → Notice → List Notice
notify callback_set n = if callback_set then n ∷ [] else []

-- `on_disconnected` is whether the callback is set.
unfoldable pub mach_client_disconnect :
    (on_disconnected : Bool) → Option MachClient → Option MachClient × List Notice
mach_client_disconnect on_disconnected none = (none, [])
mach_client_disconnect on_disconnected (some c) =
    if c.connected
    then (
      some (record c { connected = false; running = false }),
      notify on_disconnected disconnection,
    )
    else (some c, [])

-- `pthread_join` is called on the variable, which stays as it is.
abbrev join_thread : (address : ℕ) → Machine → Machine
join_thread address m =
    let thread = m.cells (receiver_thread_at address) in
    if thread == 0 then m else call m (thread_join thread)

abbrev drain_queue : (address : ℕ) → Machine → Machine
drain_queue address m =
    let message_queue = m.cells (message_queue_at address) in
    if message_queue == 0 then m else call m (queue_drain message_queue)

-- `mach_client_disconnect` and `running = 0` only change the object, which is freed; of the first the
-- notice is left.
pub mach_client_destroy :
    (ℕ → Option ℕ) → (on_disconnected : Bool) → Option MachClient → Machine → List Notice × Machine
unfolding mach_client_disconnect
mach_client_destroy port_type on_disconnected none m = ([], m)
mach_client_destroy port_type on_disconnected (some c) m = (
  (if c.connected then (mach_client_disconnect on_disconnected (some c)).1 else []),
  call
      (resource_tracker_destroy port_type c.resources
        (drain_queue c.address (join_thread c.address m)))
      (free c.address),
)
