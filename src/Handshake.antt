-- ===== src/Handshake.antt =====
-- A connection from both sides: `mach_client_connect` of src/client.c against the message handler of
-- src/server.c.
mod Tests
use mathlib.Core.Option.{some-injective}
use mach_ipc.Base.{
  ℕ, ◌+◌, ◌^◌, ◌<◌, ◌≤◌, ◌≡◌, ◌≢◌, refl, ap, sym, ◌∙◌, subst, Bool, true, false, ◌&&◌, Option, none,
  some, List, [], ◌∷◌, ◌++◌, get_or, pos, ==_refl, ◌==◌, if◌then◌else◌, arith,
}
use mach_ipc.MsgId.{
  msg_id_connect, feature_wack, set_feature, is_internal_msg, is_internal_msg_type,
  msg_type_connect,
}
use mach_ipc.MsgId.Features.{connect_request_id}
use mach_ipc.Pool.Inv.{Inv}
use mach_ipc.Protocol.Types.{
  Payload, Message, success, is_success, port_null, sizeof_payload, ipc_success,
}
use mach_ipc.Protocol.Send.{Sent}
use mach_ipc.Protocol.Send.Laws.{ack_payload, ack_message, protocol_send_ack_message}
use mach_ipc.Protocol.Ack.{Incoming}
use mach_ipc.Protocol.Ack.Waiters.{last_match}
use mach_ipc.Protocol.WithAck.{Environment, Shared, returned}
use mach_ipc.Protocol.WithAck.Laws.{expected, outcome_by, outcome_of}
use mach_ipc.Protocol.Receive.{Received}
use mach_ipc.Message.{no_data}
use mach_ipc.Resources.Cleanup.{Machine}
use mach_ipc.Server.Clients.{Client, Table, max_clients, take_id, find_client_by_port_locked}
use mach_ipc.Server.Clients.Count.{Counted, Place, placed}
use mach_ipc.Server.Clients.Valid.{joined_at}
use mach_ipc.Server.Host.{
  Host, Effect, sent, connected, create_client, queue_released, port_deallocated, client_freed,
  disconnected, queued,
}
use mach_ipc.Server.Connect.{connect_reply, reply_to, handle_connect_request}
use mach_ipc.Server.Connect.Success.{place, newcomer, handle_connect_request_accepts}
use mach_ipc.Server.Handler.{server_message_handler, handle_protocol}
use mach_ipc.Client.State.{MachClient}
use mach_ipc.Client.Connect.{Answers, mach_client_connect}
use mach_ipc.Client.Connect.Results.{connected_by}
use mach_ipc.Client.Connect.Success.{Grants, Sends, mach_client_connect_succeeds}

-- The payload of the first message that a server sent.
abbrev pub first_answer : List Effect → Option Payload
first_answer [] = none
first_answer (sent s ∷ es) = elim s.message [ none ↦ first_answer es | some x ↦ some x.payload ]
first_answer (e ∷ es) = first_answer es

-- What has arrived is a connection request with the correlation of the client's waiter in slot `i`.
pub record Requests (c : MachClient) (i : ℕ) (m : Received) : Type 0 where
  pub id : m.id ≡ set_feature msg_id_connect feature_wack
  pub port : m.remote_port ≢ port_null
  pub correlation_id : m.content.correlation_id ≡ c.ack.next_correlation_id
  pub correlation_slot : m.content.correlation_slot ≡ pos i

-- The server has room for a client from that port, and the system refuses it nothing.
pub record Ready (h : Host) (t : Table) (m : Received) (address : ℕ) : Type 0 where
  pub counted : Counted t
  pub room : t.client_count < max_clients
  pub absent : find_client_by_port_locked t m.remote_port none ≡ none
  pub made : h.create (take_id t) ≡ some address
  pub notified : is_success (h.request_notification m.remote_port) ≡ true
  pub sends : (x : Message) → is_success (h.mach_msg x) ≡ true

module _ (h : Host) (t : Table) (m : Received) (address i : ℕ) (c : MachClient) (q : Requests c i m)
    (n : c.ack.next_correlation_id ≢ 0) (slot : ℕ) where
  abbrev reply : Payload
  reply = connect_reply t.next_client_id (pos slot) ipc_success

  abbrev message : Message
  message =
      ack_message h.mach_msg h.now m.remote_port m.id c.ack.next_correlation_id i reply
        sizeof_payload no_data

  answers : reply_to h m t.next_client_id (pos slot) ipc_success ≡ record {
    result = h.mach_msg message;
    payload = some (ack_payload h.mach_msg h.now c.ack.next_correlation_id i reply);
    message = some message;
  }
  unfolding reply_to
  answers =
      rw (q.correlation_id, q.correlation_slot)
        (protocol_send_ack_message h.mach_msg h.now m.remote_port m.id c.ack.next_correlation_id i
          reply sizeof_payload no_data
          (subst (λ (id : ℕ). id < 2 ^ 32) (sym q.id) connect_request_id.0) (omega arith) n)

handled :
    (h : Host) (t : Table) (m : Received)
    → m.id ≡ set_feature msg_id_connect feature_wack
    → (server_message_handler h (t, []) m false).context ≡ handle_connect_request h t m
unfolding server_message_handler handle_protocol
handled h t m e = let (lt, internal, connect) = connect_request_id in rw (e, internal, connect) refl

expected_only :
    (env : Environment) (cid i timeout_ms : ℕ) (ack : Incoming)
    → env.before ≡ ack ∷ []
    → cid ≢ 0
    → ack.content.correlation_id ≡ cid
    → ack.content.correlation_slot ≡ pos i
    → expected env cid i timeout_ms ≡ returned success (some ack)
unfolding expected outcome_by outcome_of last_match
expected_only env cid i timeout_ms ack before n id slot =
    ground (arith, before, n, id, slot, ==_refl cid, ==_refl i)

module _ (h : Host) (t : Table) (m : Received) (address : ℕ) (a : Answers) (c : MachClient)
    (machine : Machine) (timeout_ms i : ℕ) (rest : List ℕ) (ack : Incoming) where
  -- A connection request that reaches a server with room, from a port that is not connected and with
  -- nothing refused by the system, connects: if the server's answer is the one acknowledgment that
  -- reaches the client before its wait ends, then `mach_client_connect` returns IPC_SUCCESS, both sides
  -- agree on the id and on the slot, in which the server's list has the client, active and with its
  -- port, and the client's free slots are free again. The client is connected, unless it has found the
  -- server dead in the meantime. What the kernel may refuse the client before the request is taken to
  -- be granted.
  pub handshake :
      Ready h t m address
      → Requests c i m
      → c.connected ≡ false
      → Inv c.ack.ack_pool (i ∷ rest)
      → c.ack.next_correlation_id ≢ 0
      → Grants a c machine timeout_ms
      → Sends a c machine timeout_ms i
      → a.env.before ≡ ack ∷ []
      → ack.address ≢ 0
      → first_answer (server_message_handler h (t, []) m false).context.1 ≡ some ack.content
      → (slot : ℕ) × (after : Shared) × (mach_client_connect a c machine timeout_ms
          ≡ some (some (connected_by a c machine after ack)))
        × (ack.content.client_slot ≡ pos slot)
        × (get_or (server_message_handler h (t, []) m false).context.0.clients slot none
            ≡ some (create_client address ack.content.client_id m.remote_port))
        × Inv after.ack_pool (i ∷ rest)
  handshake r q u v n g s before there answer =
      let p = place t r.counted r.room in
      let reply = answers h t m address i c q n p.index in
      let accepts =
        handle_connect_request_accepts h t m p address q.port r.absent r.made r.notified (
          ap (λ (s : Sent). is_success s.result) reply
          ∙ r.sends (message h t m address i c q n p.index)) in
      let now = handled h t m q.id ∙ accepts in
      let content = some-injective _ _ (
        sym (
          ap
            (λ (s : Sent). first_answer (
              sent s
              ∷ (if h.on_connected
                  then connected (newcomer h t m p address) (pos p.index) ∷ []
                  else [])))
            reply)
        ∙ (sym (ap (λ (r : Table × List Effect). first_answer r.1) now) ∙ answer)) in
      let (after, connects, w) =
        mach_client_connect_succeeds a c machine timeout_ms i rest ack u v n g s
          (expected_only a.env c.ack.next_correlation_id i timeout_ms ack before n
            (sym (ap (λ (x : Payload). x.correlation_id) content))
            (sym (ap (λ (x : Payload). x.correlation_slot) content)))
          there (sym (ap (λ (x : Payload). x.status) content)) in
      (
        p.index,
        after,
        connects,
        sym (ap (λ (x : Payload). x.client_slot) content),
        ap (λ (r : Table × List Effect). get_or r.0.clients p.index none) now
            ∙ (placed t.clients p (newcomer h t m p address)
                ∙ ap (λ (x : Payload). some (create_client address x.client_id m.remote_port))
                    content),
        w,
      )
