-- ===== src/Request/Laws.antt =====
-- A call with reply frees each part of the acknowledgment once, or hands it to the caller.
use mach_ipc.Base.{
  ℕ, ◌≡◌, ◌≢◌, refl, Bool, true, false, ◌&&◌, Option, none, some, List, [], ◌++◌, ℤ, if◌then◌else◌,
  arith, Bool-cases, sym, ◌∙◌, inl, inr, minus_one,
}
use mathlib.Core.Option.{some-injective}
use mach_ipc.Pool.Inv.{Inv}
use mach_ipc.MsgId.{msg_id_user}
use mach_ipc.Protocol.Types.{
  ipc_success, ipc_error_invalid_param, KernReturn, success, is_success, Buffer, Payload,
  sizeof_payload, port_null,
}
use mach_ipc.Protocol.Ack.{Incoming}
use mach_ipc.Protocol.Ack.Waiters.{matches}
use mach_ipc.Protocol.WithAck.{Environment, Shared, Outcome, returned, waits_forever}
use mach_ipc.Protocol.WithAck.Laws.{IsProper}
use mach_ipc.Protocol.WithAck.Total.{protocol_send_with_ack-Sound}
use mach_ipc.Request.{
  Returned, failed, is_there, ply_free, payload_buffer, settle, settle_user, settle_status,
  settle_outcome, send_with_reply, Handle, freed_client, client_at, check_handle,
  mach_client_send_with_port_and_reply, Endpoint, error_status, user_message, mach_server_send,
  send_checked,
}
use mach_ipc.Deadline.{Timespec}
use mach_ipc.Protocol.Types.{Message, ipc_error_send_failed}
use mach_ipc.Protocol.Send.{protocol_send_message}
use mach_ipc.Server.Clients.{Client}
use mach_ipc.Base.{◌==◌}

-- The user's part goes to a caller that wants it, and is freed for one that does not.
abbrev pub replied : (wants : Bool) → Incoming → Returned
replied wants ack = record {
  status = if is_there (payload_buffer ack) then ack.content.status else ipc_success;
  reply = if wants && is_there ack.user then some ack.user else none;
  freed = ply_free (payload_buffer ack) ++ (if wants then [] else ply_free ack.user);
}

-- What a call that returns has done: it failed and there was nothing to free, or it got the
-- acknowledgment that answers it.
pub data Settled (cid : ℕ) (wants : Bool) (r : Returned) : Type 0 where
  nothing_to_free : (status : ℤ) → r ≡ failed status → Settled cid wants r
  one_owner :
      (slot : ℕ) (ack : Incoming)
      → matches cid slot ack ≡ true
      → r ≡ replied wants ack
      → Settled cid wants r

settle_success :
    (wants : Bool) (ack : Incoming) → settle wants success (some ack) ≡ replied wants ack
unfolding settle settle_user settle_status
settle_success true ack = ground arith
settle_success false ack = ground arith

settle_failure :
    (wants : Bool) (k : KernReturn)
    → is_success k ≡ false
    → settle wants k none ≡ failed (error_status k)
unfolding settle settle_status
settle_failure wants success e = cc
settle_failure wants k e = refl

outcome-Settled :
    (cid slot : ℕ) (wants : Bool) (o : Outcome) {r : Returned}
    → IsProper cid slot o
    → settle_outcome wants o ≡ some r
    → Settled cid wants r
unfolding settle_outcome
outcome-Settled cid slot wants (returned success none) p e = absurd p
outcome-Settled cid slot wants (returned success (some ack)) p e =
    one_owner slot ack p (sym (some-injective _ _ e) ∙ settle_success wants ack)
outcome-Settled cid slot wants (returned k none) p e =
    nothing_to_free (error_status k) (sym (some-injective _ _ e) ∙ settle_failure wants k refl)
outcome-Settled cid slot wants (returned k (some ack)) p e = absurd p
outcome-Settled cid slot wants waits_forever p e = cc

-- A call that does not fault. If it returns, it is settled and has given its slot back.
abbrev pub Finishes : Shared → List ℕ → (wants : Bool) → Option (Option Returned × Shared) → Type 0
Finishes s free wants call =
    (result : Option Returned) × (after : Shared) × (call ≡ some (result, after))
    × ((r : Returned)
        → result ≡ some r
        → Settled s.next_correlation_id wants r × Inv after.ack_pool free)

returns_or_waits :
    (wants : Bool) (o : Outcome) (r : Returned)
    → settle_outcome wants o ≡ some r
    → o ≢ waits_forever
unfolding settle_outcome
returns_or_waits wants (returned k reply) r e = λ f. cc
returns_or_waits wants waits_forever r e = cc

send_with_reply-Finishes :
    (env : Environment) (s : Shared) (dest_port local_port msg_type : ℕ) (payload : Payload)
    (user : Buffer) (wants : Bool) (timeout_ms : ℕ) {free : List ℕ}
    → Inv s.ack_pool free
    → Finishes s free wants
        (send_with_reply env s dest_port local_port msg_type payload user wants timeout_ms)
unfolding send_with_reply
send_with_reply-Finishes env s dest_port local_port msg_type payload user wants timeout_ms {free}
      v =
    let sound =
      protocol_send_with_ack-Sound env dest_port local_port (msg_id_user msg_type) payload
        sizeof_payload user timeout_ms s free v in
    (
      settle_outcome wants sound.outcome,
      sound.after,
      rw sound.returns,
      λ r e. (
        outcome-Settled s.next_correlation_id sound.slot wants sound.outcome sound.proper e,
        sound.released (returns_or_waits wants sound.outcome r e),
      ),
    )

fails-Finishes :
    (s : Shared) (free : List ℕ) (wants : Bool) (status : ℤ)
    → Inv s.ack_pool free
    → Finishes s free wants (some (some (failed status), s))
fails-Finishes s free wants status v =
    (some (failed status), s, refl, λ r e. (nothing_to_free status (sym (some-injective _ _ e)), v))

-- The handle is the server's, has an id, and leads to a client that was freed.
abbrev pub IsStale : (server_given : Bool) → Handle → Type 0
IsStale server_given h = (server_given ≡ true) × (h.id ≢ 0) × (h.internal ≡ freed_client)

-- The same holds for `mach_client_send_with_port_and_reply`: on a valid pool it does not fault; if it
-- returns, either it failed without anything to free, or an acknowledgment with the call's correlation
-- id came, its payload is freed once, and the user's part is handed to the caller or else freed once;
-- and the slots that were free are free again.
pub mach_client_send_with_port_and_reply_lem :
    (env : Environment) (s : Shared) (e : Option Endpoint) (local_port msg_type : ℕ) (user : Buffer)
    (wants : Bool) (timeout_ms : ℕ) {free : List ℕ}
    → Inv s.ack_pool free
    → Finishes s free wants
        (mach_client_send_with_port_and_reply env s e local_port msg_type user wants timeout_ms)
unfolding mach_client_send_with_port_and_reply
mach_client_send_with_port_and_reply_lem env s none local_port msg_type user wants timeout_ms {free}
      v =
    fails-Finishes s free wants ipc_error_invalid_param v
mach_client_send_with_port_and_reply_lem env s (some e) local_port msg_type user wants timeout_ms
      {free} v =
    elim (Bool-cases e.connected) [
      | inl c ↦ rw c (
          send_with_reply-Finishes env s e.server_port local_port msg_type
            (user_message e.client_id e.client_slot) user wants timeout_ms v)
      | inr n ↦ rw n (fails-Finishes s free wants ipc_error_invalid_param v)
    ]

-- For an active client with a handle, the send is the one to its port.
pub mach_server_send_lem :
    (mach_msg : Message → KernReturn) (now : Timespec) (h : Handle) (c : Client) (msg_type : ℕ)
    (user : Buffer)
    → h.internal ≡ client_at c
    → h.id ≢ 0
    → c.active ≡ true
    → (let sent =
          protocol_send_message mach_msg now c.port port_null
            (msg_id_user msg_type)
            (some (user_message 0 minus_one))
            sizeof_payload
            user
            0 in
        mach_server_send mach_msg now true h msg_type user
        ≡ some
            (if is_success sent.result then ipc_success else ipc_error_send_failed, sent.message))
unfolding mach_server_send check_handle send_checked
mach_server_send_lem mach_msg now h c msg_type user i n a =
    let named : (h.id == 0) ≡ false = ground arith in rw (named, i, a) refl
