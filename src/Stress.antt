-- ===== src/Stress.antt =====
-- src/examples/stress_test_server.c and src/examples/stress_test_client.c, with the message types of
-- src/examples/stress_test.h.
pub mod Server
pub mod Client
use mach_ipc.Base.{ℕ}

abbrev pub msg_type_ping : ℕ
msg_type_ping = 1

abbrev pub msg_type_heavy_payload : ℕ
msg_type_heavy_payload = 2

abbrev pub msg_type_burst : ℕ
msg_type_burst = 3

abbrev pub msg_type_echo_back : ℕ
msg_type_echo_back = 4

abbrev pub msg_type_broadcast_req : ℕ
msg_type_broadcast_req = 5

abbrev pub msg_type_broadcast_msg : ℕ
msg_type_broadcast_msg = 6

abbrev pub msg_type_timeout_test : ℕ
msg_type_timeout_test = 7

abbrev pub msg_type_share_memory : ℕ
msg_type_share_memory = 8

abbrev pub msg_type_stats_req : ℕ
msg_type_stats_req = 9

-- `ping_payload_t`
pub record Ping : Type 0 where
  pub sequence : ℕ
  pub timestamp : ℕ
  pub client_id : ℕ
