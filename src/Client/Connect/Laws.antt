-- ===== src/Client/Connect/Laws.antt =====
-- What `mach_client_connect` comes to.
use mathlib.Core.Option.{some-injective}
use mach_ipc.Base.{
  ℕ, ◌≡◌, ◌≢◌, ◌⊎◌, ◌∙◌, ◌∷◌, ◌>>=◌, refl, sym, subst, inl, inr, Bool, true, false, Option, none,
  some, List, [], ℤ, pos, negsuc, zero, suc, eq_ℤ, minus_one, ◌==◌, if◌then◌else◌, arith,
  Bool-cases,
}
use mach_ipc.MsgId.{msg_id_connect}
use mach_ipc.Pool.Inv.{Inv}
use mach_ipc.Protocol.Types.{
  KernReturn, Buffer, success, timed_out, is_success, sizeof_payload, ipc_success,
  ipc_error_internal, ipc_error_not_connected,
}
use mach_ipc.Protocol.Ack.{Incoming}
use mach_ipc.Protocol.Ack.Waiters.{matches}
use mach_ipc.Protocol.WithAck.{Shared, Outcome, returned, waits_forever}
use mach_ipc.Protocol.WithAck.Laws.{IsProper}
use mach_ipc.Protocol.WithAck.Total.{protocol_send_with_ack-Sound}
use mach_ipc.Message.{no_data}
use mach_ipc.Client.Life.{notify}
use mach_ipc.Request.{payload_buffer, ply_free, error_status, user_message}
use mach_ipc.Resources.Cleanup.{port, Machine}
use mach_ipc.Server.Life.{assign}
use mach_ipc.Client.State.{MachClient, disconnection, server_port_at, local_port_at}
use mach_ipc.Client.Connect.{
  Answers, Result, Loss, no_loss, while_waiting, when_connected, lost_waiting, lost_connected,
  told_waiting, read_freed, give_up, give_up_waiting, free_ack, track, accept_reply, conclude,
  conclude_outcome, request, start, prepare, make_port, look_up_server, mach_client_connect,
}
use mach_ipc.Client.Connect.Results.{
  tracking, assigned, waiting, connected_by, Connects, failed, accepted, Rejected, Finishes,
}

error_status_set : (k : KernReturn) → error_status k ≢ ipc_success
unfolding error_status
error_status_set timed_out e = cc
error_status_set k e = cc

eq_ℤ_success : (s : ℤ) → eq_ℤ s ipc_success ≡ true → s ≡ ipc_success
eq_ℤ_success (pos zero) e = refl
eq_ℤ_success (pos (suc n)) e = ground arith
eq_ℤ_success (negsuc n) e = cc

ne_ℤ_success : (s : ℤ) → eq_ℤ s ipc_success ≡ false → s ≢ ipc_success
ne_ℤ_success s e same =
    let bad : eq_ℤ ipc_success ipc_success ≡ false =
      subst (λ (x : ℤ). eq_ℤ x ipc_success ≡ false) same e in
    cc

module _ (c : MachClient) where
  lost_waiting-unconnected : (l : Loss) → c.connected ≡ false → (lost_waiting l c).connected ≡ false
  lost_waiting-unconnected no_loss e = e
  lost_waiting-unconnected while_waiting e = refl
  lost_waiting-unconnected when_connected e = e

  -- What the loss of the server leaves alone.
  lost_waiting-same :
      (l : Loss)
      → ((lost_waiting l c).client_id ≡ c.client_id)
        × ((lost_waiting l c).client_slot ≡ c.client_slot)
        × ((lost_waiting l c).ack ≡ c.ack)
  lost_waiting-same no_loss = (refl, refl, refl)
  lost_waiting-same while_waiting = (refl, refl, refl)
  lost_waiting-same when_connected = (refl, refl, refl)

  lost_connected-ack : (l : Loss) → (lost_connected l c).ack ≡ c.ack
  lost_connected-ack no_loss = refl
  lost_connected-ack while_waiting = refl
  lost_connected-ack when_connected = refl

  told_waiting_lem :
      (l : Loss) (on_disconnected : Bool)
      → (told_waiting l on_disconnected ≡ [])
        ⊎ ((l ≡ while_waiting)
            × (told_waiting l on_disconnected ≡ notify on_disconnected disconnection)
            × ((lost_waiting l c).running ≡ false))
  told_waiting_lem no_loss on_disconnected = inl refl
  told_waiting_lem while_waiting on_disconnected = inr (refl, refl, refl)
  told_waiting_lem when_connected on_disconnected = inl refl

module _ (a : Answers) (c : MachClient) (m : Machine) where
  finished :
      (free : List ℕ) (r : Result)
      → Connects a c m r
      → Inv r.client.ack.ack_pool free
      → Finishes a c m free (some (some r))
  finished free r h v = inr (
    some r,
    refl,
    λ r' e.
        subst (λ (x : Result). Connects a c m x × Inv x.client.ack.ack_pool free)
          (some-injective _ _ e) (h, v),
  )

  -- `c'` is `c` as it is tracked and run so far; nothing waits yet.
  quits :
      (free : List ℕ) (c' : MachClient) (m' : Machine) (status : ℤ)
      → Inv c'.ack.ack_pool free
      → status ≢ ipc_success
      → c'.connected ≡ false
      → c'.client_id ≡ c.client_id
      → c'.client_slot ≡ c.client_slot
      → Finishes a c m free (some (some (give_up status c' m' [])))
  quits free c' m' status v n u i s =
      finished free (give_up status c' m' [])
        (failed (record {
          status_set = n;
          unconnected = u;
          same_id = i;
          same_slot = s;
          silent = inl refl;
        }))
        v

  -- A test, whichever way it goes.
  either :
      (free : List ℕ) (b : Bool) {x y : Option (Option Result)}
      → Finishes a c m free x
      → Finishes a c m free y
      → Finishes a c m free (if b then x else y)
  either free true f g = f
  either free false f g = g

  module _ (u : c.connected ≡ false) where
    -- What is done with an acknowledgment: a fault after a rejection, or a result.
    abbrev Lands : Shared → Option Result → Type 0
    Lands after x =
        ((x ≡ none) × Rejected c)
        ⊎ ((r : Result) × (x ≡ some r) × Connects a c m r × (r.client.ack ≡ after))

    gives_up :
        (after : Shared) (status : ℤ) (freed : List Buffer)
        → status ≢ ipc_success
        → Lands after (some (give_up_waiting a status (waiting a c after) (assigned a c m) freed))
    gives_up after status freed n =
        let before = record (tracking c) { running = true; ack = after } in
        let same = lost_waiting-same before a.loss in
        inr (
          give_up_waiting a status (waiting a c after) (assigned a c m) freed,
          refl,
          failed (record {
            status_set = n;
            unconnected = lost_waiting-unconnected before a.loss u;
            same_id = same.0;
            same_slot = same.1;
            silent = told_waiting_lem before a.loss a.on_disconnected;
          }),
          same.2,
        )

    read_freed-Lands :
        (slot : ℕ) (ack : Incoming) (after : Shared)
        → matches c.ack.next_correlation_id slot ack ≡ true
        → ack.content.status ≢ ipc_success
        → (l : List Buffer) → ply_free (payload_buffer ack) ≡ l
        → Lands after (
            read_freed l (
              give_up_waiting a ack.content.status
                (waiting a c after)
                (assigned a c m)
                (free_ack ack)))
    unfolding read_freed
    read_freed-Lands slot ack after same n [] e = gives_up after ack.content.status (free_ack ack) n
    read_freed-Lands slot ack after same n (b ∷ l) e = inl (
      refl,
      record {
        slot = slot;
        ack = ack;
        matched = same;
        not_accepted = n;
        deallocated = λ d. let bad : ◌≡◌ {A = List Buffer} (b ∷ l) [] = sym e ∙ d in cc;
      },
    )

    accept_reply-Lands :
        (slot : ℕ) (ack : Incoming) (after : Shared)
        → matches c.ack.next_correlation_id slot ack ≡ true
        → Lands after (accept_reply a (waiting a c after) (assigned a c m) ack)
    unfolding accept_reply
    accept_reply-Lands slot ack after same =
        elim (Bool-cases (eq_ℤ ack.content.status ipc_success)) [
          | inl ok ↦ rw ok (
              inr (
                connected_by a c m after ack,
                refl,
                accepted slot ack after same (eq_ℤ_success ack.content.status ok) refl,
                lost_connected-ack _ a.loss
                    ∙ (lost_waiting-same (record (tracking c) { running = true; ack = after })
                        a.loss).2,
              ))
          | inr bad ↦ rw bad (
              read_freed-Lands slot ack after same (ne_ℤ_success ack.content.status bad)
                (ply_free (payload_buffer ack)) refl)
        ]

    conclude-Lands :
        (slot : ℕ) (k : KernReturn) (reply : Option Incoming) (after : Shared)
        → IsProper c.ack.next_correlation_id slot (returned k reply)
        → Lands after (conclude a (waiting a c after) (assigned a c m) k reply)
    unfolding conclude
    conclude-Lands slot success none after p = absurd p
    conclude-Lands slot success (some ack) after p = elim (Bool-cases (ack.address == 0)) [
      | inl null ↦
          subst
            (λ (b : Bool). Lands after (
              if b
              then some (
                  give_up_waiting a ipc_error_internal (waiting a c after) (assigned a c m)
                    (ply_free ack.user))
              else accept_reply a (waiting a c after) (assigned a c m) ack))
            (sym null) (gives_up after ipc_error_internal (ply_free ack.user) (λ e. cc))
      | inr there ↦
          subst
            (λ (b : Bool). Lands after (
              if b
              then some (
                  give_up_waiting a ipc_error_internal (waiting a c after) (assigned a c m)
                    (ply_free ack.user))
              else accept_reply a (waiting a c after) (assigned a c m) ack))
            (sym there) (accept_reply-Lands slot ack after p)
    ]
    conclude-Lands slot k reply after p = gives_up after (error_status k) [] (error_status_set k)

    landed :
        (free : List ℕ) (after : Shared) (x : Option Result)
        → Lands after x
        → Inv after.ack_pool free
        → Finishes a c m free (x >>= (λ r. some (some r)))
    landed free after x (inl (faults, rejected)) v = inl (rw faults refl, rejected)
    landed free after x (inr (r, e, h, same)) v =
        subst (λ (y : Option Result). Finishes a c m free (y >>= (λ r. some (some r)))) (sym e)
          (finished free r h (subst (λ (t : Shared). Inv t.ack_pool free) (sym same) v))

    outcome-Finishes :
        (free : List ℕ) (slot : ℕ) (o : Outcome) (after : Shared)
        → IsProper c.ack.next_correlation_id slot o
        → (o ≢ waits_forever → Inv after.ack_pool free)
        → Finishes a c m free (conclude_outcome a (waiting a c after) (assigned a c m) o)
    unfolding conclude_outcome
    outcome-Finishes free slot (returned k reply) after p v =
        landed free after (conclude a (waiting a c after) (assigned a c m) k reply)
          (conclude-Lands slot k reply after p) (v (λ e. cc))
    outcome-Finishes free slot waits_forever after p v = inr (none, refl, λ r e. cc)

    request-Finishes :
        (free : List ℕ)
        → Inv c.ack.ack_pool free
        → (timeout_ms : ℕ)
        → Finishes a c m free
            (request a (record (tracking c) { running = true }) (assigned a c m) timeout_ms)
    unfolding request
    request-Finishes free v timeout_ms =
        let m' = assigned a c m in
        let sound =
          protocol_send_with_ack-Sound a.env (m'.cells (server_port_at c.address))
            (m'.cells (local_port_at c.address)) msg_id_connect (user_message 0 minus_one)
            sizeof_payload no_data timeout_ms c.ack free v in
        rw sound.returns
          (outcome-Finishes free sound.slot sound.outcome sound.after sound.proper sound.released)

    abbrev with_server_port : MachClient
    with_server_port = track c port (server_port_at c.address)

    abbrev server_port_set : Machine
    server_port_set = assign m (server_port_at c.address) a.look_up.1

    abbrev with_ports : MachClient
    with_ports = track with_server_port port (local_port_at c.address)

    abbrev ports_set : Machine
    ports_set = assign server_port_set (local_port_at c.address) a.allocate.1

    prepare-Finishes :
        (free : List ℕ)
        → Inv c.ack.ack_pool free
        → (timeout_ms : ℕ) → Finishes a c m free (prepare a with_ports ports_set timeout_ms)
    unfolding prepare start
    prepare-Finishes free v timeout_ms =
        let quit = quits free with_ports ports_set ipc_error_internal v (λ e. cc) u refl refl in
        let stop =
          quits free (record with_ports { running = false }) ports_set ipc_error_internal v
            (λ e. cc) u refl refl in
        either free (is_success a.insert_right)
          (either free (is_success a.request_notification)
            (either free a.thread_made.0 (request-Finishes free v timeout_ms) stop) quit)
          quit

    look_up-Finishes :
        (free : List ℕ)
        → Inv c.ack.ack_pool free
        → (timeout_ms : ℕ) → Finishes a c m free (look_up_server a c m timeout_ms)
    unfolding look_up_server make_port
    look_up-Finishes free v timeout_ms =
        either free (is_success a.look_up.0)
          (either free (is_success a.allocate.0) (prepare-Finishes free v timeout_ms) (
            quits free with_server_port server_port_set ipc_error_internal v (λ e. cc) u refl refl))
          (quits free c m ipc_error_not_connected v (λ e. cc) u refl refl)

pub mach_client_connect_lem :
    (a : Answers) (c : MachClient) (m : Machine) (timeout_ms : ℕ) {free : List ℕ}
    → c.connected ≡ false
    → Inv c.ack.ack_pool free
    → Finishes a c m free (mach_client_connect a c m timeout_ms)
unfolding mach_client_connect
mach_client_connect_lem a c m timeout_ms {free} u v =
    subst
      (λ (b : Bool). Finishes a c m free (
        if b
        then some (some (give_up ipc_error_internal c m []))
        else look_up_server a c m timeout_ms))
      (sym u) (look_up-Finishes a c m u free v timeout_ms)
