-- ===== src/Server/Connect/Laws.antt =====
-- A connection request either adds a client or leaves the list as it was.
use mach_ipc.Base.{
  ℕ, ◌+◌, ◌<◌, ◌≤◌, zero, suc, ◌^◌, ◌≡◌, ◌≢◌, refl, sym, ap, ◌∙◌, subst, ◌⊎◌, inl, inr, true, false,
  ◌&&◌, Option, none, some, List, [], ◌∷◌, ◌++◌, ℤ, pos, negsuc, minus_one, eq_ℤ, ◌==◌,
  if◌then◌else◌, arith, Bool-cases, Option-cases, length, length,
}
use mach_ipc.Protocol.Types.{is_success, ipc_success, ipc_error_client_full, port_null}
use mach_ipc.Protocol.Send.{Sent}
use mach_ipc.Protocol.Receive.{Received}
use mach_ipc.Server.Clients.{
  Client, Table, max_clients, free_slot, take_id, find_client_by_port_locked, add_client,
  remove_client,
}
use mach_ipc.Server.Clients.Count.{
  present, Counted, Place, Unlisted, free_slot_cases, add_client_at, add_client_full,
  remove_client-add_client,
}
use mach_ipc.Server.Clients.Valid.{Valid, take_id-Valid, joined_at, joined-Valid}
use mach_ipc.Server.Host.{
  queue_released, port_deallocated, client_freed, Host, Effect, sent, connected, create_client,
  destroy_client,
}
use mach_ipc.Server.Connect.{
  Attempt, attempt, watch, enlist, create_and_enlist, unless_connected, reply_to, answer, conclude,
  handle_connect_request,
}

-- `calloc` does not return an object that is still listed.
abbrev pub AllocatesFresh : Host → Type 0
AllocatesFresh h = (t : Table) (a : ℕ) → h.create t ≡ some a → Unlisted a t.clients

-- At `send_reply`: nothing is left of a failed attempt but the id that it used up, or the client is
-- in the list.
data Attempted (t : Table) (port : ℕ) (a : Attempt) : Type 0 where
  failed :
      a.client ≡ none
      → (a.table ≡ t) ⊎ (a.table ≡ take_id t)
      → a.status ≢ ipc_success
      → Attempted t port a
  enlisted :
      (p : Place 0 t.clients) (address : ℕ)
      → Unlisted address t.clients
      → find_client_by_port_locked t port none ≡ none
      → a ≡ record {
        table = joined_at t p.index (create_client address t.next_client_id port);
        client = some (create_client address t.next_client_id port);
        client_id = t.next_client_id;
        client_slot = pos p.index;
        status = ipc_success;
        effects = [];
      }
      → Attempted t port a

module _ (h : Host) (t : Table) (port : ℕ) where
  module _ (address : ℕ) (unlisted : Unlisted address t.clients)
      (absent : find_client_by_port_locked t port none ≡ none) where
    abbrev newcomer : Client
    newcomer = create_client address t.next_client_id port

    removed :
        (p : Place 0 t.clients) → remove_client (joined_at t p.index newcomer) newcomer ≡ take_id t
    removed p =
        ap (λ (r : ℤ × Table). remove_client r.1 newcomer)
          (sym (add_client_at (take_id t) newcomer p.index p.found))
        ∙ remove_client-add_client (take_id t) newcomer unlisted

    watched :
        (p : Place 0 t.clients)
        → Attempted t port (watch h (joined_at t p.index newcomer) newcomer (pos p.index))
    unfolding watch
    watched p = elim (Bool-cases (is_success (h.request_notification port))) [
      | inl ok ↦ rw ok (enlisted p address unlisted absent refl)
      | inr bad ↦ rw bad (failed refl (inr (removed p)) (λ e. cc))
    ]

    enlist_cases : Attempted t port (enlist h newcomer (add_client (take_id t) newcomer))
    unfolding enlist
    enlist_cases = elim (free_slot_cases 0 t.clients) [
      | inl (full, count) ↦
          rw (add_client_full (take_id t) newcomer full) (failed refl (inr refl) (λ e. cc))
      | inr p ↦ rw (add_client_at (take_id t) newcomer p.index p.found) (watched p)
    ]

  created :
      AllocatesFresh h
      → find_client_by_port_locked t port none ≡ none
      → (o : Option ℕ) → h.create (take_id t) ≡ o
      → Attempted t port (create_and_enlist h (take_id t) t.next_client_id port o)
  unfolding create_and_enlist
  created fresh absent none e = failed refl (inr refl) (λ e. cc)
  created fresh absent (some address) e = enlist_cases address (fresh (take_id t) address e) absent

  attempt_cases : AllocatesFresh h → Attempted t port (attempt h t port)
  unfolding attempt unless_connected
  attempt_cases fresh = elim (Bool-cases (port == port_null)) [
    | inl z ↦ rw z (failed refl (inl refl) (λ e. cc))
    | inr n ↦ rw n (elim (Option-cases (find_client_by_port_locked t port none)) [
      | inl absent ↦ rw absent (created fresh absent (h.create (take_id t)) refl)
      | inr (c, there) ↦ rw there (failed refl (inl refl) (λ e. cc))
    ])
  ]

-- What a connection request comes to. A request that is turned away is answered with an error, or the
-- answer could not be sent; at most an id has been used up. One that is accepted has its client in the
-- first free slot, with the next id.
pub data Connects (h : Host) (t : Table) (m : Received) (result : Table × List Effect)
    : Type 0 where
  turned_away :
      (id : ℕ) (slot status : ℤ) (before after : List Effect)
      → (result.0 ≡ t) ⊎ (result.0 ≡ take_id t)
      → result.1 ≡ before ++ (sent (reply_to h m id slot status) ∷ after)
      → (is_success (reply_to h m id slot status).result && eq_ℤ status ipc_success) ≡ false
      → Connects h t m result
  accepted :
      (p : Place 0 t.clients) (address : ℕ)
      → Unlisted address t.clients
      → find_client_by_port_locked t m.remote_port none ≡ none
      → is_success (reply_to h m t.next_client_id (pos p.index) ipc_success).result ≡ true
      → (let c = create_client address t.next_client_id m.remote_port in
          result ≡ (
            joined_at t p.index c,
            sent (reply_to h m t.next_client_id (pos p.index) ipc_success)
                ∷ (if h.on_connected then connected c (pos p.index) ∷ [] else []),
          ))
      → Connects h t m result

not_success : (status : ℤ) → status ≢ ipc_success → eq_ℤ status ipc_success ≡ false
not_success (pos zero) n = absurd (n refl)
not_success (pos (suc k)) n = ground arith
not_success (negsuc k) n = refl

module _ (h : Host) (t : Table) (m : Received) where
  abbrev reply : (a : Attempt) → Sent
  reply a = reply_to h m a.client_id a.client_slot a.status

  answer_failed :
      (a : Attempt) (o : Option Client)
      → a.client ≡ o
      → o ≡ none
      → (a.table ≡ t) ⊎ (a.table ≡ take_id t)
      → a.status ≢ ipc_success
      → Connects h t m (answer h m a)
  unfolding answer conclude
  answer_failed a none e n same status = rw e (
      turned_away a.client_id a.client_slot a.status a.effects [] same refl
        (ground (arith, not_success a.status status)))
  answer_failed a (some c) e n same status = cc

  answer_enlisted :
      (p : Place 0 t.clients) (address : ℕ)
      → Unlisted address t.clients
      → find_client_by_port_locked t m.remote_port none ≡ none
      → Connects h t m (
          answer h m (record {
            table = joined_at t p.index (create_client address t.next_client_id m.remote_port);
            client = some (create_client address t.next_client_id m.remote_port);
            client_id = t.next_client_id;
            client_slot = pos p.index;
            status = ipc_success;
            effects = [];
          }))
  unfolding answer conclude
  answer_enlisted p address unlisted absent =
      elim (Bool-cases
        (is_success (reply_to h m t.next_client_id (pos p.index) ipc_success).result)) [
          | inl ok ↦ rw ok (accepted p address unlisted absent ok refl)
          | inr bad ↦ rw bad (
              turned_away t.next_client_id (pos p.index) ipc_success []
                (destroy_client (create_client address t.next_client_id m.remote_port))
                (inr (removed h t m.remote_port address unlisted absent p)) refl (rw bad))
        ]

  -- A connection request either leaves the client list as it was, but for an id that it may have used
  -- up, and then its answer has an error status or could not be sent; or the answer with status 0 went
  -- out and the client stands in the first free slot, active, with the id in the answer, and its port
  -- was not there before. The allocator is taken to return no address that is still listed.
  pub handle_connect_request_lem : AllocatesFresh h → Connects h t m (handle_connect_request h t m)
  unfolding handle_connect_request
  handle_connect_request_lem fresh = by_attempt (attempt_cases h t m.remote_port fresh)
    where
      by_attempt :
          Attempted t m.remote_port (attempt h t m.remote_port)
          → Connects h t m (answer h m (attempt h t m.remote_port))
      by_attempt (failed n same status) =
          answer_failed (attempt h t m.remote_port) (attempt h t m.remote_port).client refl n same
            status
      by_attempt (enlisted p address unlisted absent e) =
          subst (λ (a : Attempt). Connects h t m (answer h m a)) (sym e)
            (answer_enlisted p address unlisted absent)

  -- On a valid list whose ids have not run out, the list is valid afterwards.
  pub handle_connect_request-Valid :
      AllocatesFresh h
      → Valid t
      → t.next_client_id + 1 < 2 ^ 32
      → Valid (handle_connect_request h t m).0
        × ((handle_connect_request h t m).0.next_client_id ≤ t.next_client_id + 1)
  handle_connect_request-Valid fresh v n = by_case (handle_connect_request_lem fresh)
    where
      by_case :
          Connects h t m (handle_connect_request h t m)
          → Valid (handle_connect_request h t m).0
            × ((handle_connect_request h t m).0.next_client_id ≤ t.next_client_id + 1)
      by_case (turned_away id slot status before after (inl e) sends bad) = rw e (v, omega arith)
      by_case (turned_away id slot status before after (inr e) sends bad) =
          rw e (take_id-Valid t v n, omega arith)
      by_case (accepted p address unlisted absent ok e) = rw e (
        joined-Valid t (create_client address t.next_client_id m.remote_port) v n refl refl absent
            unlisted p,
        omega arith,
      )

full_has_no_slot : (cs : List (Option Client)) → present cs ≡ length cs → free_slot 0 cs ≡ none
full_has_no_slot cs full = elim (free_slot_cases 0 cs) [
  | inl (e, same) ↦ e
  | inr p ↦ absurd (omega (arith, full, p.room))
]

-- With a full list, a request from a new port for which an object is allocated is answered with status
-- CLIENT_FULL and slot -1, after the object has been destroyed again. So the answer goes to a port
-- whose send right has been given back before.
pub connect_when_full :
    (h : Host) (t : Table) (m : Received) (address : ℕ)
    → Counted t
    → t.client_count ≡ max_clients
    → m.remote_port ≢ port_null
    → find_client_by_port_locked t m.remote_port none ≡ none
    → h.create (take_id t) ≡ some address
    → handle_connect_request h t m ≡ (
      take_id t,
      queue_released address
          ∷ port_deallocated m.remote_port
          ∷ client_freed address
          ∷ sent (reply_to h m t.next_client_id minus_one ipc_error_client_full)
          ∷ [],
    )
unfolding handle_connect_request attempt unless_connected create_and_enlist enlist answer conclude
    destroy_client reply_to
connect_when_full h t m address v full port absent made =
    let no_slot =
      add_client_full (take_id t) (create_client address t.next_client_id m.remote_port)
        (full_has_no_slot t.clients (omega (arith, v.sized, v.counted, full))) in
    let given : (m.remote_port == port_null) ≡ false = ground arith in
    rw (given, absent, made, no_slot) (rw given)
