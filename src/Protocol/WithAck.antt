-- ===== src/Protocol/WithAck.antt =====
-- src/protocol.c, `protocol_send_with_ack`, from the assignment of the correlation id to the return.
-- What the receive thread does meanwhile is part of the environment: the acknowledgments that it
-- handles before the wait ends, between the end of the wait and the store into `cancelled`, and
-- between that store and the last critical section.
pub mod Laws
pub mod Total
pub mod Returns
pub mod Schedule
mod Tests
use mach_ipc.Base.{
  ℕ, ◌+◌, ◌%◌, ◌^◌, Bool, true, false, not, ◌&&◌, Option, none, some, ◌>>=◌, List, [], ◌∷◌,
  get_elem?, ℤ, pos, negsuc, ltb, ◌==◌, if◌then◌else◌,
}
use mach_ipc.MsgId.{feature_wack, set_feature}
use mach_ipc.Pool.{Pool, pool_pop}
use mach_ipc.Deadline.{Timespec}
use mach_ipc.Protocol.Types.{
  KernReturn, success, invalid_argument, failure, timed_out, is_success, Payload, sizeof_payload,
  Buffer, Message,
}
use mach_ipc.Protocol.Send.{Sent, protocol_send_message}
use mach_ipc.Protocol.Ack.{Incoming, Waiter, register_ack_waiter, handle_acks, cancel, collect}

pub record Environment : Type 0 where
  pub mach_msg : Message → KernReturn
  pub now : Timespec
  pub event_made : Bool
  pub before : List Incoming
  pub late : List Incoming
  pub cancelled : List Incoming

-- The state that the calls of one endpoint share.
pub record Shared : Type 0 where
  pub ack_pool : Pool Waiter
  pub next_correlation_id : ℕ

-- `result` and the out-parameters: `reply` is `none` for null pointers and zero sizes. A call that
-- waits without a timeout and is never woken does not return.
pub data Outcome : Type 0 where
  returned : (result : KernReturn) (reply : Option Incoming) → Outcome
  waits_forever : Outcome

-- The wait is over, and `got_reply` is known: the branches on `was_received`.
pub finish : Pool Waiter → ℕ → Option (Outcome × Pool Waiter)
finish p slot = do
  (reply, q) ← collect p slot
  some (returned (elim reply [ none ↦ timed_out | some r ↦ success ]) reply, q)

-- `event_wait_timeout` has run out.
expire : Environment → Pool Waiter → ℕ → Option (Outcome × Pool Waiter)
unfolding finish
expire env p slot = do
  (_, p1) ← handle_acks p env.late
  p2 ← cancel p1 slot
  (_, p3) ← handle_acks p2 env.cancelled
  finish p3 slot

-- The message is on its way.
await : Environment → Pool Waiter → ℕ → (timeout_ms : ℕ) → Option (Outcome × Pool Waiter)
unfolding finish expire
await env p slot timeout_ms = do
  (_, q) ← handle_acks p env.before
  w ← get_elem? q.slots slot
  if w.event
      then finish q slot
      else if timeout_ms == 0
      then some (waits_forever, q)
      else expire env q slot

-- The waiter is registered: send, and give the slot back if that fails.
pub send_and_await :
    Environment
    → Pool Waiter
    → ℤ
    → (dest_port reply_port msg_id : ℕ) → Payload
    → (payload_size : ℕ) → Buffer
    → (timeout_ms : ℕ) → Option (Outcome × Pool Waiter)
unfolding await
send_and_await env p (negsuc n) dest_port reply_port msg_id payload payload_size user timeout_ms =
    some (returned failure none, p)
send_and_await env p (pos slot) dest_port reply_port msg_id payload payload_size user timeout_ms =
    let sent =
      protocol_send_message env.mach_msg env.now dest_port reply_port
        (set_feature msg_id feature_wack) (some (record payload { correlation_slot = pos slot }))
        payload_size user timeout_ms in
    if is_success sent.result
    then await env p slot timeout_ms
    else do q ← pool_pop p (pos slot); some (returned sent.result none, q)

-- `(*next_correlation_id)++` on 64 bits, then the rest. A null payload is `none`.
pub protocol_send_with_ack :
    Environment
    → Shared
    → (dest_port reply_port msg_id : ℕ) → Option Payload
    → (payload_size : ℕ) → Buffer
    → (timeout_ms : ℕ) → Option (Outcome × Shared)
unfolding send_and_await
protocol_send_with_ack env s dest_port reply_port msg_id none payload_size user timeout_ms =
    some (returned invalid_argument none, s)
protocol_send_with_ack env s dest_port reply_port msg_id (some payload) payload_size user
      timeout_ms =
    if ltb payload_size sizeof_payload then some (returned invalid_argument none, s) else do
      (slot, p) ← register_ack_waiter s.ack_pool env.event_made s.next_correlation_id
      (outcome, q) ←
          send_and_await env p slot dest_port reply_port msg_id
            (record payload { correlation_id = s.next_correlation_id }) payload_size user timeout_ms
      some (
        outcome,
        record { ack_pool = q; next_correlation_id = (s.next_correlation_id + 1) % 2 ^ 64 },
      )
