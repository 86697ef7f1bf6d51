-- ===== src/Client/Connect/Success.antt =====
-- When `mach_client_connect` connects.
use mach_ipc.Base.{
  ℕ, ◌≡◌, ◌≢◌, ◌∙◌, ap, Bool, true, false, List, ◌∷◌, pos, minus_one, arith, ◌==◌, if◌then◌else◌,
  eq_ℤ, ℤ, some, [], ◌++◌, Option, ◌>>=◌,
}
use mach_ipc.MsgId.{msg_id_connect, feature_wack, set_feature}
use mach_ipc.Pool.Inv.{Inv}
use mach_ipc.Protocol.Types.{success, is_success, sizeof_payload, ipc_success, ipc_error_internal}
use mach_ipc.Protocol.Send.{protocol_send_message}
use mach_ipc.Protocol.Ack.{Incoming}
use mach_ipc.Protocol.WithAck.{Shared, returned}
use mach_ipc.Protocol.WithAck.Laws.{expected}
use mach_ipc.Protocol.WithAck.Total.{protocol_send_with_ack_lem, next_id}
use mach_ipc.Message.{no_data}
use mach_ipc.Request.{user_message, ply_free}
use mach_ipc.Resources.Cleanup.{Machine}
use mach_ipc.Client.State.{connection, MachClient, server_port_at, local_port_at}
use mach_ipc.Client.Life.{notify}
use mach_ipc.Client.Connect.{
  Answers, Result, lost_connected, told_loss, free_ack, give_up, give_up_waiting, accept_reply,
  conclude, conclude_outcome, request, start, prepare, make_port, look_up_server,
  mach_client_connect,
}
use mach_ipc.Client.Connect.Results.{tracking, assigned, waiting, connected_by}

taken : {A : Type 0} (b : Bool) (x y : A) → b ≡ true → (if b then x else y) ≡ x
taken b x y e = ap (λ (b : Bool). if b then x else y) e

conclude_accepts :
    (a : Answers) (c : MachClient) (m : Machine) (ack : Incoming)
    → ack.address ≢ 0
    → ack.content.status ≡ ipc_success
    → conclude a c m success (some ack)
      ≡ some (record {
        status = ipc_success;
        client = lost_connected a.loss (record c {
          client_id = ack.content.client_id;
          client_slot = ack.content.client_slot;
          connected = true;
        });
        machine = m;
        freed = free_ack ack;
        notices = told_loss a.loss a.on_disconnected ++ notify a.on_connected connection;
      })
unfolding conclude accept_reply
conclude_accepts a c m ack there status =
    let null : (ack.address == 0) ≡ false = ground arith in
    let ok = ap (λ (s : ℤ). eq_ℤ s ipc_success) status in
    ap
      (λ (b : Bool).
        if b
        then some (give_up_waiting a ipc_error_internal c m (ply_free ack.user))
        else accept_reply a c m ack)
      null
    ∙ taken (eq_ℤ ack.content.status ipc_success) _ _ ok

module _ (a : Answers) (c : MachClient) (m : Machine) (timeout_ms : ℕ) where
  -- The kernel gives all that `mach_client_connect` asks of it before the request.
  pub record Grants : Type 0 where
    pub found : is_success a.look_up.0 ≡ true
    pub allocated : is_success a.allocate.0 ≡ true
    pub right : is_success a.insert_right ≡ true
    pub notifies : is_success a.request_notification ≡ true
    pub thread : a.thread_made.0 ≡ true
    pub event : a.env.event_made ≡ true

  -- The request goes out from slot `i`, to the port that was found.
  abbrev pub Sends : ℕ → Type 0
  Sends i =
      is_success
        (protocol_send_message a.env.mach_msg a.env.now
          ((assigned a c m).cells (server_port_at c.address))
          ((assigned a c m).cells (local_port_at c.address))
          (set_feature msg_id_connect feature_wack)
          (some (record (user_message 0 minus_one) {
            correlation_id = c.ack.next_correlation_id;
            correlation_slot = pos i;
          }))
          sizeof_payload no_data timeout_ms).result
      ≡ true

  granted :
      Grants
      → c.connected ≡ false
      → mach_client_connect a c m timeout_ms
        ≡ request a (record (tracking c) { running = true }) (assigned a c m) timeout_ms
  unfolding mach_client_connect look_up_server make_port prepare start
  granted g u =
      ap
        (λ (b : Bool).
          if b
          then some (some (give_up ipc_error_internal c m []))
          else look_up_server a c m timeout_ms)
        u
      ∙ (taken (is_success a.look_up.0) _ _ g.found
          ∙ (taken (is_success a.allocate.0) _ _ g.allocated
              ∙ (taken (is_success a.insert_right) _ _ g.right
                  ∙ (taken (is_success a.request_notification) _ _ g.notifies
                      ∙ taken a.thread_made.0 _ _ g.thread))))

  -- Connecting succeeds: on a client that is not connected, with slot `i` the next of its valid pool and
  -- a correlation id other than 0, if the kernel grants what is asked before the request, the request
  -- goes out and the wait ends with an acknowledgment of status IPC_SUCCESS, then `mach_client_connect`
  -- returns IPC_SUCCESS, the client has the id and slot of that acknowledgment, it is connected unless
  -- the receiver thread has found the server dead meanwhile, and the slots that were free are free again.
  pub mach_client_connect_succeeds :
      (i : ℕ) (rest : List ℕ) (ack : Incoming)
      → c.connected ≡ false
      → Inv c.ack.ack_pool (i ∷ rest)
      → c.ack.next_correlation_id ≢ 0
      → Grants
      → Sends i
      → expected a.env c.ack.next_correlation_id i timeout_ms ≡ returned success (some ack)
      → ack.address ≢ 0
      → ack.content.status ≡ ipc_success
      → (after : Shared) × (mach_client_connect a c m timeout_ms
          ≡ some (some (connected_by a c m after ack)))
        × Inv after.ack_pool (i ∷ rest)
  unfolding request conclude_outcome
  mach_client_connect_succeeds i rest ack u v n g sent reply there status =
      let e =
        protocol_send_with_ack_lem a.env ((assigned a c m).cells (server_port_at c.address))
          ((assigned a c m).cells (local_port_at c.address)) msg_id_connect
          (user_message 0 minus_one) sizeof_payload no_data timeout_ms c.ack i rest v (omega arith)
          n g.event sent in
      (
        record { ack_pool = e.0; next_correlation_id = next_id c.ack.next_correlation_id },
        granted g u
            ∙ (rw (e.1, reply)
                (ap (λ (x : Option Result). x >>= (λ r. some (some r)))
                  (conclude_accepts a
                    (waiting a c (record {
                      ack_pool = e.0;
                      next_correlation_id = next_id c.ack.next_correlation_id;
                    }))
                    (assigned a c m) ack there status))),
        e.2 (λ f. cc),
      )
