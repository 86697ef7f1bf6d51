-- ===== src/Protocol/WithAck/Tests.antt =====
-- A call as a course of steps, at concrete inputs.
use mach_ipc.Base.{◌≡◌, refl, some, [], ◌∷◌, arith}
use mach_ipc.Pool.{Pool}
use mach_ipc.MsgId.{set_feature}
use mach_ipc.Protocol.Send.{protocol_send_message}
use mach_ipc.Protocol.Ack.{Waiter}
use mach_ipc.Protocol.WithAck.{Outcome, protocol_send_with_ack}
use mach_ipc.Protocol.WithAck.Laws.{expected}
use mach_ipc.Protocol.WithAck.Total.{next_id, protocol_send_with_ack_lem}
use mach_ipc.Protocol.WithAck.Schedule.{Ends, protocol_send_with_ack-schedule}
use mach_ipc.Protocol.Calls.Reached.{at_rest}
use mach_ipc.Protocol.Tests.{
  payload, user_data, timeout_ms, reply_port, waiters-Inv, shared, environment, request_id,
}

abbrev outcome : Outcome
outcome = expected environment 9 0 timeout_ms

called :
    (q : Pool Waiter) × (protocol_send_with_ack environment shared 88 reply_port request_id
        (some payload)
        40
        user_data
        timeout_ms
      ≡ some (outcome, record { ack_pool = q; next_correlation_id = next_id 9 }))
unfolding protocol_send_message set_feature
called =
    let (q, e, _) =
      protocol_send_with_ack_lem environment 88 reply_port request_id payload 40 user_data
        timeout_ms shared 0 (1 ∷ []) waiters-Inv (omega arith) (omega arith) refl refl in
    (q, e)

-- The late reply is taken, and the call succeeds.
protocol_send_with_ack-schedule_example :
    Ends
      (at_rest shared)
      5
      (record { ack_pool = called.0; next_correlation_id = next_id 9 })
      outcome
protocol_send_with_ack-schedule_example =
    protocol_send_with_ack-schedule environment 88 reply_port request_id payload 40 user_data
      timeout_ms (at_rest shared) 5 refl refl called.1
