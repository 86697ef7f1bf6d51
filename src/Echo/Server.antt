-- ===== src/Echo/Server.antt =====
-- src/examples/echo_server.c: a region of shared memory for each client, in a `LinearTSPool` by the
-- client's slot. The callbacks run one after another, so that nobody else changes the pool while one
-- of them has it. A callback that faults, or waits for a lock for ever, is `none`. The texts that they print are left out.
pub mod Run
pub mod Disconnect
pub mod Requests
pub mod Released
mod Tests
use mach_ipc.Base.{
  ℕ, Bool, true, false, Option, none, some, ◌>>=◌, List, [], ◌++◌, get_or, set, ℤ, pos, negsuc,
  get_elem?, store, ◌==◌, if◌then◌else◌,
}
use mach_ipc.Protocol.Types.{port_null, is_success, Buffer, ipc_success, ipc_error_internal}
use mach_ipc.SharedMemory.{
  SharedMemory, Answers, Action, shared_memory_map, shared_memory_destroy, shared_memory_get_data,
  shared_memory_get_size,
}
use mach_ipc.LinearPool.{
  LinearPool, linear_ts_pool_is_active, linear_ts_pool_set, linear_ts_pool_remove,
  linear_ts_pool_get, linear_ts_pool_lock_entry, linear_ts_pool_unlock_entry,
}
use mach_ipc.Status.{echo_custom_status}

-- `shmem_pool_entry_t`
pub record Entry : Type 0 where
  pub shmem : Option SharedMemory
  pub client_id : ℕ

-- MSG_TYPE_SET_ECHO_SHM, MSG_TYPE_ECHO
abbrev pub msg_type_set_echo_shm : ℕ
msg_type_set_echo_shm = 1

abbrev pub msg_type_echo : ℕ
msg_type_echo = 2

-- What a callback leaves: `*remote_port`, `*reply_status`, where it wrote its echo, the pool, and what
-- it did to the system's resources. Its reply is always null.
pub record Handled : Type 0 where
  pub remote_port : ℕ
  pub reply_status : ℤ
  pub written : Option Buffer
  pub pool : LinearPool Entry
  pub actions : List Action

abbrev pub idle : LinearPool Entry → LinearPool Entry
idle p = p

-- `entry->shmem = NULL` after the destruction, with the entry locked.
clear_entry : LinearPool Entry → Option ℕ → Option (List Action × LinearPool Entry)
clear_entry p none = some ([], p)
clear_entry p (some i) = do
  entry ← get_elem? p.slots i
  slots ← store p.slots i (record entry { shmem = none })
  some (elim entry.shmem [
    | none ↦ ([], p)
    | some shmem ↦ (shared_memory_destroy (some shmem), record p { slots = slots })
  ])

-- What follows `linear_ts_pool_lock_entry`.
disconnect_locked : Bool → LinearPool Entry → (slot : ℤ) → Option (List Action × LinearPool Entry)
unfolding clear_entry
disconnect_locked false p slot = some ([], linear_ts_pool_remove p slot)
disconnect_locked true p slot = do
  (actions, q) ← clear_entry p (linear_ts_pool_get p slot)
  some (actions, linear_ts_pool_remove (linear_ts_pool_unlock_entry q slot) slot)

pub on_client_disconnected : LinearPool Entry → (slot : ℤ) → Option (List Action × LinearPool Entry)
unfolding disconnect_locked
on_client_disconnected p slot = do
  (locked, q) ← linear_ts_pool_lock_entry idle idle p slot
  disconnect_locked locked q slot

-- The memory is mapped, or is not: MSG_TYPE_SET_ECHO_SHM from `shared_memory_map` on.
keep_mapping :
    LinearPool Entry
    → (slot : ℤ) (client_id remote_port : ℕ) → Option SharedMemory
    → List Action
    → Handled
keep_mapping p slot client_id remote_port shmem actions =
    let (kept, q) =
      linear_ts_pool_set p slot (some (record { shmem = shmem; client_id = client_id })) in
    if kept
    then record {
      remote_port = port_null;
      reply_status = ipc_success;
      written = none;
      pool = q;
      actions = actions;
    }
    else record {
      remote_port = remote_port;
      reply_status = ipc_error_internal;
      written = none;
      pool = q;
      actions = actions ++ shared_memory_destroy shmem;
    }

abbrev refused_with : LinearPool Entry → (remote_port : ℕ) → List Action → Handled
refused_with p remote_port actions = record {
  remote_port = remote_port;
  reply_status = ipc_error_internal;
  written = none;
  pool = p;
  actions = actions;
}

map_memory : Answers → LinearPool Entry → (slot : ℤ) (client_id remote_port size : ℕ) → Handled
unfolding keep_mapping
map_memory answers p slot client_id remote_port size =
    let mapped = shared_memory_map answers remote_port size true in
    if is_success mapped.result
    then keep_mapping p slot client_id remote_port mapped.out_shmem mapped.actions
    else refused_with p remote_port mapped.actions

-- `answers` is the system's, `size` what `data` points to, with `none` for null.
set_echo_shm :
    Answers
    → LinearPool Entry
    → (slot : ℤ) (client_id remote_port : ℕ) → (size : Option ℕ) → Option Handled
unfolding map_memory
set_echo_shm answers p slot client_id remote_port size =
    if linear_ts_pool_is_active p slot
    then some (refused_with p remote_port [])
    else (size >>= λ n. some (map_memory answers p slot client_id remote_port n))

-- With the entry locked: the greeting goes into the client's memory.
echo_locked : LinearPool Entry → (slot : ℤ) (remote_port : ℕ) → Option SharedMemory → Handled
echo_locked p slot remote_port none =
    refused_with (linear_ts_pool_unlock_entry p slot) remote_port []
echo_locked p slot remote_port (some shmem) = record {
  remote_port = remote_port;
  reply_status = echo_custom_status;
  written = some (record {
    address = shared_memory_get_data (some shmem);
    size = shared_memory_get_size (some shmem);
  });
  pool = linear_ts_pool_unlock_entry p slot;
  actions = [];
}

-- `!entry || !entry->shmem`
shmem_at : LinearPool Entry → Option ℕ → Option (Option SharedMemory)
shmem_at p none = some none
shmem_at p (some i) = do entry ← get_elem? p.slots i; some entry.shmem

-- What follows `linear_ts_pool_lock_entry`.
after_lock : Bool → LinearPool Entry → (slot : ℤ) (remote_port : ℕ) → Option Handled
unfolding shmem_at echo_locked
after_lock false p slot remote_port = some (refused_with p remote_port [])
after_lock true p slot remote_port = do
  shmem ← shmem_at p (linear_ts_pool_get p slot)
  some (echo_locked p slot remote_port shmem)

echo : LinearPool Entry → (slot : ℤ) (remote_port : ℕ) → Option Handled
unfolding after_lock
echo p slot remote_port = do
  (locked, q) ← linear_ts_pool_lock_entry idle idle p slot
  after_lock locked q slot remote_port

-- The library calls it with `*reply_status` at IPC_SUCCESS.
pub on_message_with_reply :
    Answers
    → LinearPool Entry
    → (slot : ℤ) (client_id remote_port msg_type : ℕ) → (size : Option ℕ) → Option Handled
unfolding set_echo_shm echo
on_message_with_reply answers p slot client_id remote_port msg_type size =
    if msg_type == msg_type_set_echo_shm
    then set_echo_shm answers p slot client_id remote_port size
    else if msg_type == msg_type_echo
    then echo p slot remote_port
    else some (record {
      remote_port = remote_port;
      reply_status = ipc_success;
      written = none;
      pool = p;
      actions = [];
    })
