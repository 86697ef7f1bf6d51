-- ===== src/Server/Connect/Success.antt =====
-- When a connection request is accepted.
use mach_ipc.Base.{
  ℕ, ◌<◌, ◌≡◌, ◌≢◌, refl, inl, inr, true, false, none, some, [], ◌∷◌, pos, ◌==◌, if◌then◌else◌,
  arith,
}
use mach_ipc.Protocol.Types.{is_success, ipc_success, port_null}
use mach_ipc.Protocol.Receive.{Received}
use mach_ipc.Server.Clients.{Client, Table, max_clients, take_id, find_client_by_port_locked}
use mach_ipc.Server.Clients.Count.{Counted, Place, free_slot_cases, add_client_at}
use mach_ipc.Server.Clients.Valid.{joined_at}
use mach_ipc.Server.Host.{Host, sent, connected, create_client}
use mach_ipc.Server.Connect.{
  attempt, watch, enlist, create_and_enlist, unless_connected, reply_to, answer, conclude,
  handle_connect_request,
}

-- A slot for the next client.
pub place : (t : Table) → Counted t → t.client_count < max_clients → Place 0 t.clients
place t v room = elim (free_slot_cases 0 t.clients) [
  | inl (e, full) ↦ absurd (omega (arith, v.sized, v.counted, full, room))
  | inr p ↦ p
]

module _ (h : Host) (t : Table) (m : Received) (p : Place 0 t.clients) (address : ℕ) where
  abbrev pub newcomer : Client
  newcomer = create_client address t.next_client_id m.remote_port

  pub handle_connect_request_accepts :
      m.remote_port ≢ port_null
      → find_client_by_port_locked t m.remote_port none ≡ none
      → h.create (take_id t) ≡ some address
      → is_success (h.request_notification m.remote_port) ≡ true
      → is_success (reply_to h m t.next_client_id (pos p.index) ipc_success).result ≡ true
      → handle_connect_request h t m ≡ (
        joined_at t p.index newcomer,
        sent (reply_to h m t.next_client_id (pos p.index) ipc_success)
            ∷ (if h.on_connected then connected newcomer (pos p.index) ∷ [] else []),
      )
  unfolding handle_connect_request attempt unless_connected create_and_enlist enlist watch answer
      conclude
  handle_connect_request_accepts port absent made notified replied =
      let given : (m.remote_port == port_null) ≡ false = ground arith in
      let added = add_client_at (take_id t) newcomer p.index p.found in
      rw (given, absent, made, added, notified, replied) refl
