-- ===== src/Server/Handler.antt =====
-- src/server.c, `handle_death_notification` and `server_message_handler`, as the handler of the
-- receive loop: its context is the client list and the effects so far, in order.
pub mod Laws
use mach_ipc.Base.{
  ℕ, Bool, true, false, Option, none, some, List, [], ◌∷◌, ◌++◌, ℤ, pos, minus_one, ◌==◌,
  if◌then◌else◌,
}
use mach_ipc.MsgId.{is_internal_msg, is_external_msg, is_internal_msg_type, msg_type_connect}
use mach_ipc.Protocol.Types.{port_null}
use mach_ipc.Protocol.Receive.{Received, Reply}
use mach_ipc.Message.{find_sender}
use mach_ipc.Server.Clients.{Client, Table, find_client_by_port_locked, remove_client}
use mach_ipc.Server.Host.{Host, Effect, disconnected, queued, destroy_client}
use mach_ipc.Server.Connect.{handle_connect_request}

-- MACH_NOTIFY_DEAD_NAME of the kernel's headers, MACH_NOTIFY_FIRST + 010.
abbrev pub mach_notify_dead_name : ℕ
mach_notify_dead_name = 72

forget : Host → Table → Option (ℕ × Client) → Table × List Effect
forget h t none = (t, [])
forget h t (some (slot, c)) = (
  remove_client t c,
  (if h.on_disconnected then disconnected c (pos slot) ∷ [] else []) ++ destroy_client c,
)

pub handle_death_notification : Host → Table → Received → Table × List Effect
unfolding forget
handle_death_notification h t m =
    forget h t (find_client_by_port_locked t m.not_port (some minus_one))

-- `handle_user_message` of the server, up to `dispatch_async`.
pub dispatch_user_message : Received → Option (ℕ × Client) → List Effect
dispatch_user_message m none = []
dispatch_user_message m (some (slot, c)) = queued c m ∷ []

abbrev pub Context : Type 0
Context = Table × List Effect

abbrev pub after : List Effect → Table × List Effect → Context
after effects r = (r.0, effects ++ r.1)

-- The handler's result, the remote port in the header and the new context.
abbrev pub left : Bool → ℕ → Context → Reply Context
left clean_up port s = record { clean_up = clean_up; remote_port = port; context = s }

handle_native : Host → Context → Received → Reply Context
unfolding handle_death_notification
handle_native h (t, effects) m = left true m.remote_port (
    if m.id == mach_notify_dead_name
    then after effects (handle_death_notification h t m)
    else (t, effects))

-- After a connection request the port in the header is null, so that the loop keeps the right.
unfoldable pub handle_protocol : Host → Context → Received → Reply Context
unfolding dispatch_user_message
handle_protocol h (t, effects) m =
    if is_internal_msg m.id
    then if is_internal_msg_type m.id msg_type_connect
      then left true port_null (after effects (handle_connect_request h t m))
      else left true m.remote_port (t, effects)
    else if is_external_msg m.id
    then left false m.remote_port (t, effects ++ dispatch_user_message m (find_sender t m))
    else left true m.remote_port (t, effects)

unfoldable pub server_message_handler :
    Host → Context → Received → (is_native : Bool) → Reply Context
unfolding handle_native handle_protocol
server_message_handler h s m true = handle_native h s m
server_message_handler h s m false = handle_protocol h s m
