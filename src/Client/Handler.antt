-- ===== src/Client/Handler.antt =====
-- src/client.c, `handle_death_notification` and `client_message_handler`, as the handler of the
-- client's receive loop: its context is the client and what was announced or queued so far, in order.
pub mod Laws
use mach_ipc.Base.{ℕ, Bool, true, false, List, ◌∷◌, [], ◌++◌, ◌==◌, if◌then◌else◌}
use mach_ipc.MsgId.{is_internal_msg, is_external_msg}
use mach_ipc.Protocol.Receive.{Received, Reply}
use mach_ipc.Server.Handler.{mach_notify_dead_name}
use mach_ipc.Client.State.{MachClient, Notice, disconnection, queued}
use mach_ipc.Client.Life.{notify}

abbrev pub Context : Type 0
Context = MachClient × List Notice

pub handle_death_notification : (on_disconnected : Bool) → Context → Context
handle_death_notification on_disconnected (c, notices) = (
  record c { connected = false; running = false },
  notices ++ notify on_disconnected disconnection,
)

-- The handler's result and the new context. The client leaves the remote port in the header.
abbrev left : Bool → ℕ → Context → Reply Context
left clean_up port s = record { clean_up = clean_up; remote_port = port; context = s }

pub client_message_handler :
    (on_disconnected : Bool) → Context → Received → (is_native : Bool) → Reply Context
unfolding handle_death_notification
client_message_handler on_disconnected s m true =
    left true m.remote_port
      (if m.id == mach_notify_dead_name then handle_death_notification on_disconnected s else s)
client_message_handler on_disconnected (c, notices) m false =
    if is_internal_msg m.id
    then left true m.remote_port (c, notices)
    else if is_external_msg m.id
    then left false m.remote_port (c, notices ++ (queued m ∷ []))
    else left true m.remote_port (c, notices)
