-- ===== src/Server/Broadcast/Laws.antt =====
-- Whom a broadcast reaches, and what a disconnection by the server does.
use mach_ipc.Base.{
  ℕ, ◌≡◌, ◌≢◌, refl, Bool, true, ◌&&◌, Option, none, some, List, [], ◌∷◌, map, ℤ, minus_one, arith,
  inl, inr, if◌then◌else◌, Bool-cases,
}
use mach_ipc.Deadline.{Timespec}
use mach_ipc.MsgId.{msg_id_user}
use mach_ipc.Protocol.Types.{
  KernReturn, Message, Buffer, sizeof_payload, port_null, is_success, ipc_success,
  ipc_error_send_failed,
}
use mach_ipc.Protocol.Send.{Sent, protocol_send_message}
use mach_ipc.Request.{user_message}
use mach_ipc.Request.Laws.{mach_server_send_lem}
use mach_ipc.Server.Clients.{Client, Table}
use mach_ipc.Server.Broadcast.{handle_of, snapshot, send_all, mach_server_broadcast}

-- The clients that a broadcast is for.
abbrev pub active_clients : List (Option Client) → List Client
active_clients [] = []
active_clients (none ∷ cs) = active_clients cs
active_clients (some c ∷ cs) = if c.active then c ∷ active_clients cs else active_clients cs

-- Every client has an id; 0 marks a handle that is not valid.
abbrev pub AllNamed : List Client → Type 0
AllNamed [] = Unit
AllNamed (c ∷ cs) = (c.id ≢ 0) × AllNamed cs

module _ (mach_msg : Message → KernReturn) (now : Timespec) (msg_type : ℕ) (user : Buffer) where
  -- The message to one client.
  abbrev pub send_to : Client → Sent
  send_to c =
      protocol_send_message mach_msg now c.port port_null (msg_id_user msg_type)
        (some (user_message 0 minus_one)) sizeof_payload user 0

  -- Whether the kernel took every message.
  abbrev pub all_sent : List Client → Bool
  all_sent [] = true
  all_sent (c ∷ cs) = is_success (send_to c).result && all_sent cs

  abbrev pub messages : List Client → List (Option Message)
  messages cs = map (λ (c : Client). (send_to c).message) cs

  send_all_lem :
      (cs : List (Option Client)) (r : ℤ)
      → AllNamed (active_clients cs)
      → send_all mach_msg now msg_type user r (snapshot cs)
        ≡ some (
          if all_sent (active_clients cs) then r else ipc_error_send_failed,
          messages (active_clients cs),
        )
  unfolding send_all snapshot
  send_all_lem [] r n = refl
  send_all_lem (none ∷ cs) r n = send_all_lem cs r n
  send_all_lem (some c ∷ cs) r n = elim (Bool-cases c.active) [
    | inr off ↦ rw off (send_all_lem cs r (rw off at n))
    | inl on ↦
        let named : (c.id ≢ 0) × AllNamed (active_clients cs) = rw on at n in
        let sent =
          mach_server_send_lem mach_msg now (handle_of c) c msg_type user refl named.0 on in
        elim (Bool-cases (is_success (send_to c).result)) [
          | inl ok ↦ ground (arith, sent, on, ok, send_all_lem cs r named.1)
          | inr bad ↦ ground (arith, sent, on, bad, send_all_lem cs ipc_error_send_failed named.1)
        ]
  ]

  -- On a server whose active clients have ids, a broadcast sends the message to each active client
  -- once, in the order of the slots, also behind a send that fails; its status is IPC_SUCCESS if the
  -- kernel took every message, and IPC_ERROR_SEND_FAILED otherwise.
  pub mach_server_broadcast_lem :
      (t : Table)
      → AllNamed (active_clients t.clients)
      → mach_server_broadcast mach_msg now msg_type user true t
        ≡ some (
          if all_sent (active_clients t.clients) then ipc_success else ipc_error_send_failed,
          messages (active_clients t.clients),
        )
  unfolding mach_server_broadcast
  mach_server_broadcast_lem t n = send_all_lem t.clients ipc_success n
