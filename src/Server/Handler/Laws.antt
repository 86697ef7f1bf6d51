-- ===== src/Server/Handler/Laws.antt =====
-- The client list stays valid under every message.
use mach_ipc.Base.{
  ℕ, suc, length, ◌+◌, ◌<◌, ◌≤◌, ◌^◌, ◌≡◌, refl, subst, inl, inr, Bool, true, false, none, some,
  List, [], ◌∷◌, ◌++◌, ◌==◌, if◌then◌else◌, pos, minus_one, set, get_or, arith, Bool-cases,
  Option-cases, ◌-◌,
}
use mach_ipc.MsgId.{is_internal_msg, is_external_msg, is_internal_msg_type, msg_type_connect}
use mach_ipc.Pool.{Pool}
use mach_ipc.Pool.Inv.{Inv}
use mach_ipc.Protocol.Ack.{Waiter}
use mach_ipc.Protocol.Receive.{Received, Dealloc, protocol_receive_loop}
use mach_ipc.Protocol.Receive.Laws.{protocol_receive_loop_keeps}
use mach_ipc.Server.Clients.{Client, Table, has_port, find_client_by_port_locked}
use mach_ipc.Server.Clients.Find.{port_found, port_not_found}
use mach_ipc.Server.Clients.Valid.{
  Valid, Nowhere, Unique-Nowhere, remove_client-Valid, remove_client_listed,
}
use mach_ipc.Server.Host.{Host, Effect, disconnected, destroy_client}
use mach_ipc.Server.Connect.Laws.{AllocatesFresh, handle_connect_request-Valid}
use mach_ipc.Server.Handler.{
  Context, forget, handle_death_notification, handle_native, handle_protocol,
  server_message_handler, mach_notify_dead_name,
}

-- What a dead-name notification for `port` comes to.
pub data Forgets (h : Host) (t : Table) (port : ℕ) (result : Table × List Effect) : Type 0 where
  unknown : Nowhere (has_port port) t.clients → result ≡ (t, []) → Forgets h t port result
  left :
      (i : ℕ) (c : Client)
      → get_or t.clients i none ≡ some c
      → c.port ≡ port
      → Nowhere (has_port port) result.0.clients
      → result ≡ (
        record t { clients = set t.clients i none; client_count = t.client_count - 1 },
        (if h.on_disconnected then disconnected c (pos i) ∷ [] else []) ++ destroy_client c,
      )
      → Forgets h t port result

module _ (h : Host) (t : Table) (m : Received) (v : Valid t) where
  -- On a valid list a notification for a port without an active client changes nothing; for any other
  -- port the one client that has it leaves, its slot becomes free, no client with the port is left, the
  -- disconnection is announced if there is a callback, and its resources are given back once.
  pub handle_death_notification_lem : Forgets h t m.not_port (handle_death_notification h t m)
  unfolding handle_death_notification forget
  handle_death_notification_lem =
      elim (Option-cases (find_client_by_port_locked t m.not_port (some minus_one))) [
        | inl e ↦ rw e (unknown (λ i. port_not_found t m.not_port i e) refl)
        | inr ((i, c), e) ↦
            let (at, has) = port_found t m.not_port i c e in
            let gone = remove_client_listed t i c (v.by_address c.address) at in
            rw (e, gone)
              (left i c at (ground arith)
                (Unique-Nowhere (has_port m.not_port) t.clients i (v.by_port m.not_port)
                  (ground arith))
                refl)
      ]

  pub handle_death_notification-Valid :
      Valid (handle_death_notification h t m).0
      × ((handle_death_notification h t m).0.next_client_id ≤ t.next_client_id + 1)
  handle_death_notification-Valid = by_case handle_death_notification_lem
    where
      by_case :
          Forgets h t m.not_port (handle_death_notification h t m)
          → Valid (handle_death_notification h t m).0
            × ((handle_death_notification h t m).0.next_client_id ≤ t.next_client_id + 1)
      by_case (unknown n e) = rw e (v, omega arith)
      by_case (left i c at port n e) = rw e (
        subst Valid (remove_client_listed t i c (v.by_address c.address) at)
            (remove_client-Valid t i c v at),
        omega arith,
      )

-- The list is valid, and `k` more ids can be given out.
abbrev pub ValidFor : ℕ → Context → Type 0
ValidFor k s = Valid s.0 × (s.0.next_client_id + k < 2 ^ 32)

handler-ValidFor :
    (h : Host) (k : ℕ) (s : Context) (m : Received) (native : Bool)
    → AllocatesFresh h
    → ValidFor (suc k) s
    → ValidFor k (server_message_handler h s m native).context
unfolding server_message_handler handle_native handle_protocol
handler-ValidFor h k s m true fresh v = elim (Bool-cases (m.id == mach_notify_dead_name)) [
  | inl e ↦
      let (w, le) = handle_death_notification-Valid h s.0 m v.0 in rw e (w, omega (arith, v, le))
  | inr n ↦ rw n (v.0, omega (arith, v))
]
handler-ValidFor h k s m false fresh v = elim (Bool-cases (is_internal_msg m.id)) [
  | inl internal ↦ rw internal (elim (Bool-cases (is_internal_msg_type m.id msg_type_connect)) [
    | inl connect ↦
        let (w, le) = handle_connect_request-Valid h s.0 m fresh v.0 (omega (arith, v)) in
        rw connect (w, omega (arith, v, le))
    | inr other ↦ rw other (v.0, omega (arith, v))
  ])
  | inr n ↦ rw n (elim (Bool-cases (is_external_msg m.id)) [
    | inl user ↦ rw user (v.0, omega (arith, v))
    | inr other ↦ rw other (v.0, omega (arith, v))
  ])
]

-- The loop with the server's handler does not fault and keeps the list valid, as long as there are ids
-- left for the messages.
pub server_loop-Valid :
    (h : Host) (ms : List (Bool × Received)) (t : Table) (effects : List Effect) (p : Pool Waiter)
    {free : List ℕ}
    → AllocatesFresh h
    → Valid t
    → t.next_client_id + length ms < 2 ^ 32
    → Inv p free
    → (ds : List Dealloc) × (t' : Table) × (effects' : List Effect) × (q : Pool Waiter)
      × (protocol_receive_loop (server_message_handler h) ((t, effects), p) ms
          ≡ some (ds, ((t', effects'), q)))
      × Valid t'
      × Inv q free
server_loop-Valid h ms t effects p fresh v room inv =
    let (ds, (t', effects'), q, e, w, g) =
      protocol_receive_loop_keeps (server_message_handler h) ValidFor
        (λ k s m native g. handler-ValidFor h k s m native fresh g)
        (λ k s g. (g.0, omega (arith, g))) ms (t, effects) p inv (v, room) in
    (ds, t', effects', q, e, g.0, w)
