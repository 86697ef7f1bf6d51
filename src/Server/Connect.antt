-- ===== src/Server/Connect.antt =====
-- src/server.c, `handle_connect_request`. The `goto send_reply` of a failed test is the `Attempt`
-- with the values that the locals have there.
pub mod Laws
pub mod Success
use mach_ipc.Base.{
  ℕ, Bool, true, false, ◌&&◌, Option, none, some, List, [], ◌∷◌, ◌++◌, ℤ, pos, negsuc, minus_one,
  eq_ℤ, ◌==◌, if◌then◌else◌,
}
use mach_ipc.Protocol.Types.{
  is_success, Payload, sizeof_payload, port_null, ipc_success, ipc_error_invalid_param,
  ipc_error_no_memory, ipc_error_internal, ipc_error_client_full,
}
use mach_ipc.Protocol.Send.{Sent, protocol_send_ack, no_deadline}
use mach_ipc.Protocol.Receive.{Received}
use mach_ipc.Message.{no_data}
use mach_ipc.Server.Clients.{
  Client, Table, take_id, find_client_by_port_locked, add_client, remove_client,
}
use mach_ipc.Server.Host.{Host, Effect, sent, connected, create_client, destroy_client}

-- The locals at `send_reply`. A null `client` is `none`.
pub record Attempt : Type 0 where
  pub table : Table
  pub client : Option Client
  pub client_id : ℕ
  pub client_slot : ℤ
  pub status : ℤ
  pub effects : List Effect

abbrev pub refuse : Table → (id : ℕ) → (slot status : ℤ) → List Effect → Attempt
refuse t id slot status effects = record {
  table = t;
  client = none;
  client_id = id;
  client_slot = slot;
  status = status;
  effects = effects;
}

-- The client is in the list.
unfoldable pub watch : Host → Table → Client → (slot : ℤ) → Attempt
watch h t c slot =
    if is_success (h.request_notification c.port)
    then record {
      table = t;
      client = some c;
      client_id = c.id;
      client_slot = slot;
      status = ipc_success;
      effects = [];
    }
    else refuse (remove_client t c) c.id slot ipc_error_internal (destroy_client c)

unfoldable pub enlist : Host → Client → ℤ × Table → Attempt
unfolding watch
enlist h c (slot, t) =
    if eq_ℤ slot minus_one
    then refuse t c.id slot ipc_error_client_full (destroy_client c)
    else watch h t c slot

unfoldable pub create_and_enlist : Host → Table → (id port : ℕ) → Option ℕ → Attempt
unfolding enlist
create_and_enlist h t id port none = refuse t id minus_one ipc_error_no_memory []
create_and_enlist h t id port (some address) =
    let c = create_client address id port in enlist h c (add_client t c)

unfoldable pub unless_connected : Host → Table → (port : ℕ) → Option (ℕ × Client) → Attempt
unfolding create_and_enlist
unless_connected h t port (some c) = refuse t 0 minus_one ipc_error_internal []
unless_connected h t port none =
    create_and_enlist h (take_id t) t.next_client_id port (h.create (take_id t))

-- Up to `send_reply`.
unfoldable pub attempt : Host → Table → (port : ℕ) → Attempt
unfolding unless_connected
attempt h t port =
    if port == port_null
    then refuse t 0 minus_one ipc_error_invalid_param []
    else unless_connected h t port (find_client_by_port_locked t port none)

-- The initialiser of `reply`; what it does not name is zero.
abbrev pub connect_reply : (id : ℕ) → (slot status : ℤ) → Payload
connect_reply id slot status = record {
  client_id = id;
  client_slot = slot;
  correlation_id = 0;
  correlation_slot = pos 0;
  status = status;
  user_payload_deadline = no_deadline;
}

-- Behind the reply. With status 0 there is a client.
unfoldable pub conclude :
    Host → Table → Option Client → (slot status : ℤ) → Sent → Table × List Effect
conclude h t none slot status reply = (t, [])
conclude h t (some c) slot status reply =
    if is_success reply.result && eq_ℤ status ipc_success
    then (t, if h.on_connected then connected c slot ∷ [] else [])
    else (remove_client t c, destroy_client c)

unfoldable pub reply_to : Host → Received → (id : ℕ) → (slot status : ℤ) → Sent
reply_to h m id slot status =
    protocol_send_ack h.mach_msg h.now m.remote_port m.id m.content.correlation_id
      m.content.correlation_slot (connect_reply id slot status) sizeof_payload no_data

unfoldable pub answer : Host → Received → Attempt → Table × List Effect
unfolding conclude reply_to
answer h m a =
    let reply = reply_to h m a.client_id a.client_slot a.status in
    let (t, effects) = conclude h a.table a.client a.client_slot a.status reply in
    (t, a.effects ++ (sent reply ∷ effects))

unfoldable pub handle_connect_request : Host → Table → Received → Table × List Effect
unfolding attempt answer
handle_connect_request h t m = answer h m (attempt h t m.remote_port)
