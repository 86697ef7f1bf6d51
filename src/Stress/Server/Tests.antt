-- ===== src/Stress/Server/Tests.antt =====
-- Runs of the stress test's server.
use mach_ipc.Base.{◌≡◌, refl, true, some, none, List, [], ◌∷◌, pos}
use mach_ipc.Stress.{msg_type_ping, msg_type_echo_back}
use mach_ipc.Stress.Server.{ServerStats, Request, Replied, on_message_with_reply}
use mach_ipc.Stress.Server.Laws.{Answered, on_message_with_reply_lem}
use mach_ipc.Stress.Server.Counts.{
  Event, connected, disconnected, message, request, Counted, run-Counted,
}

abbrev zero_stats : ServerStats
zero_stats = record {
  total_messages = 0;
  total_bytes = 0;
  broadcasts = 0;
  timeouts = 0;
  errors = 0;
  active_clients = 0;
}

abbrev ping : Request
ping = record { ping = record { sequence = 7; timestamp = 1; client_id = 0 }; word = 7 }

-- A ping without data is a fault.
null_ping : on_message_with_reply true 9 zero_stats msg_type_ping 0 none ≡ none
unfolding on_message_with_reply
null_ping = refl

on_message_with_reply_lem_example :
    (a : Replied) × (on_message_with_reply true 9 zero_stats msg_type_ping 24 (some ping) ≡ some a)
    × Answered true zero_stats msg_type_ping 24 a
on_message_with_reply_lem_example =
    on_message_with_reply_lem true 9 zero_stats msg_type_ping 24 ping

abbrev events : List Event
events =
    connected
    ∷ request true 9 msg_type_ping 24 ping
    ∷ message (λ x. pos 0) msg_type_echo_back (record { address = 4096; size = 10 })
    ∷ disconnected
    ∷ []

run-Counted_example : Counted zero_stats events
run-Counted_example = run-Counted events zero_stats
