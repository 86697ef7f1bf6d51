-- ===== src/Server/Broadcast.antt =====
-- src/utils.c, `mach_server_broadcast` and `mach_server_disconnect_client`, and the questions
-- `mach_server_client_count` and `mach_server_max_clients` of src/server.c.
pub mod Laws
use mach_ipc.Base.{
  ℕ, Bool, true, false, not, Option, none, some, ◌>>=◌, List, [], ◌∷◌, ◌++◌, ℤ, eq_ℤ, ◌==◌,
  if◌then◌else◌,
}
use mach_ipc.Deadline.{Timespec}
use mach_ipc.Protocol.Types.{KernReturn, Message, Buffer, ipc_success, ipc_error_invalid_param}
use mach_ipc.Request.{Handle, Internal, null_pointer, freed_client, client_at, mach_server_send}
use mach_ipc.Server.Clients.{Client, Table, max_clients, remove_client}
use mach_ipc.Server.Host.{Host, Effect, disconnected, destroy_client}

abbrev pub handle_of : Client → Handle
handle_of c = record { id = c.id; internal = client_at c }

-- The handles of the active clients, in the order of their slots.
pub snapshot : List (Option Client) → List Handle
snapshot [] = []
snapshot (none ∷ cs) = snapshot cs
snapshot (some c ∷ cs) = if c.active then handle_of c ∷ snapshot cs else snapshot cs

-- What was handed to the kernel, send by send.
abbrev pub Sends : Type 0
Sends = List (Option Message)

module _ (mach_msg : Message → KernReturn) (now : Timespec) (msg_type : ℕ) (user : Buffer) where
  -- `result` keeps the last error.
  pub send_all : (result : ℤ) → List Handle → Option (ℤ × Sends)
  send_all result [] = some (result, [])
  send_all result (h ∷ hs) = do
    (status, message) ← mach_server_send mach_msg now true h msg_type user
    (last, sends) ← send_all (if eq_ℤ status ipc_success then result else status) hs
    some (last, message ∷ sends)

  pub mach_server_broadcast : (server_given : Bool) → Table → Option (ℤ × Sends)
  unfolding send_all snapshot
  mach_server_broadcast false t = some (ipc_error_invalid_param, [])
  mach_server_broadcast true t = send_all ipc_success (snapshot t.clients)

-- `IS_VALID_CLIENT`, without the test for an active client.
pub is_valid_client : Handle → Internal
is_valid_client h = if h.id == 0 then null_pointer else h.internal

-- A client that was freed is read all the same.
drop_client : Host → Table → (slot : ℤ) → Internal → Option (Table × List Effect)
drop_client h t slot null_pointer = some (t, [])
drop_client h t slot freed_client = none
drop_client h t slot (client_at c) = some (
  remove_client t c,
  (if h.on_disconnected then disconnected c slot ∷ [] else []) ++ destroy_client c,
)

pub mach_server_disconnect_client :
    Host → (server_given : Bool) → Table → Handle → (slot : ℤ) → Option (Table × List Effect)
unfolding is_valid_client drop_client
mach_server_disconnect_client h false t client slot = some (t, [])
mach_server_disconnect_client h true t client slot = drop_client h t slot (is_valid_client client)

pub mach_server_client_count : Option Table → ℕ
mach_server_client_count none = 0
mach_server_client_count (some t) = t.client_count

pub mach_server_max_clients : (server_given : Bool) → ℕ
mach_server_max_clients server_given = if server_given then max_clients else 0
