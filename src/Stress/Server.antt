-- ===== src/Stress/Server.antt =====
-- src/examples/stress_test_server.c: the callbacks and the statistics, which have 32 bits each. A
-- callback's updates are each under the lock of the statistics; the texts that are printed are left out.
pub mod Laws
pub mod Counts
mod Tests
use mach_ipc.Base.{
  ℕ, ◌+◌, ◌-◌, ◌*◌, ◌%◌, ◌^◌, Option, none, some, ◌>>=◌, ℤ, pos, eq_ℤ, ◌==◌, if◌then◌else◌, Bool,
  true, false,
}
use mach_ipc.MsgId.{msg_id_user}
use mach_ipc.Protocol.Types.{Buffer, ipc_success, ipc_error_invalid_param}
use mach_ipc.Status.{stress_status_ping_ok, stress_status_burst_ok, stress_status_timeout_ok}
use mach_ipc.Stress.{
  Ping, msg_type_ping, msg_type_heavy_payload, msg_type_burst, msg_type_echo_back,
  msg_type_broadcast_req, msg_type_broadcast_msg, msg_type_timeout_test, msg_type_share_memory,
  msg_type_stats_req,
}

-- `server_stats_t`
pub record ServerStats : Type 0 where
  pub total_messages : ℕ
  pub total_bytes : ℕ
  pub broadcasts : ℕ
  pub timeouts : ℕ
  pub errors : ℕ
  pub active_clients : ℕ

-- `a += b` and `a--` on 32 bits.
abbrev pub add32 : ℕ → ℕ → ℕ
add32 a b = (a + b) % 2 ^ 32

abbrev pub dec32 : ℕ → ℕ
dec32 a = (a + (2 ^ 32 - 1)) % 2 ^ 32

pub on_client_connected : ServerStats → ServerStats
on_client_connected s = record s { active_clients = add32 s.active_clients 1 }

pub on_client_disconnected : ServerStats → ServerStats
on_client_disconnected s = record s { active_clients = dec32 s.active_clients }

-- What both message callbacks start with.
abbrev pub count_message : ServerStats → (size : ℕ) → ServerStats
count_message s size = record s {
  total_messages = add32 s.total_messages 1;
  total_bytes = add32 s.total_bytes size;
}

abbrev pub count_error : ServerStats → ServerStats
count_error s = record s { errors = add32 s.errors 1 }

abbrev pub count_failure : (status : ℤ) → ServerStats → ServerStats
count_failure status s = if eq_ℤ status ipc_success then s else count_error s

-- What `on_message` has the library do: a broadcast, or a message back to the client.
pub data Sending : Type 0 where
  broadcast : (msg_id : ℕ) → Sending
  back : (msg_id : ℕ) → Buffer → Sending

-- `answer` is what the library says to it.
pub on_message :
    (answer : Sending → ℤ) → ServerStats → (msg_type : ℕ) → Buffer → Option Sending × ServerStats
on_message answer s msg_type user =
    let t = count_message s user.size in
    let request = broadcast (msg_id_user msg_type_broadcast_msg) in
    let echo = back (msg_id_user msg_type_echo_back) user in
    if msg_type == msg_type_broadcast_req
    then (
      some request,
      count_failure (answer request) (record t { broadcasts = add32 t.broadcasts 1 }),
    )
    else if msg_type == msg_type_echo_back
    then (some echo, count_failure (answer echo) t)
    else (none, t)

-- What lies at `data`, read as a ping or as a number of 32 bits.
pub record Request : Type 0 where
  pub ping : Ping
  pub word : ℕ

-- `stats_payload_t`
pub record StatsPayload : Type 0 where
  pub total_messages : ℕ
  pub total_bytes : ℕ
  pub broadcasts : ℕ
  pub timeouts : ℕ
  pub errors : ℕ

abbrev pub payload_of : ServerStats → StatsPayload
payload_of s = record {
  total_messages = s.total_messages;
  total_bytes = s.total_bytes;
  broadcasts = s.broadcasts;
  timeouts = s.timeouts;
  errors = s.errors;
}

-- The reply, with what `*reply_size` and `*reply_status` are set to.
pub data Reply : Type 0 where
  pong : Ping → Reply
  word : ℕ → Reply
  stats : StatsPayload → Reply

pub record Replied : Type 0 where
  pub reply : Option Reply
  pub reply_size : ℕ
  pub reply_status : ℤ
  pub stats : ServerStats

-- Without a reply.
abbrev pub silent : ServerStats → ℤ → Replied
silent s status = record { reply = none; reply_size = 0; reply_status = status; stats = s }

-- With a reply, unless `ipc_alloc` failed.
abbrev pub with_reply :
    (allocated : Bool) → ServerStats → Reply → (size : ℕ) → (status : ℤ) → Replied
with_reply true s reply size status = record {
  reply = some reply;
  reply_size = size;
  reply_status = status;
  stats = s;
}
with_reply false s reply size status = silent s ipc_success

-- The ping is read only if there is room for the pong.
answer_ping : (allocated : Bool) (now : ℕ) → ServerStats → Option Request → Option Replied
answer_ping false now s request = some (silent s ipc_success)
answer_ping true now s request = do
  d ← request
  some (
      with_reply true s (Reply.pong (record d.ping { timestamp = now % 2 ^ 64 })) 24
        stress_status_ping_ok)

-- The switch. A null `data` that is read is a fault. `now` is the time in microseconds.
answer_request :
    (allocated : Bool) (now : ℕ) → ServerStats → (msg_type : ℕ) → Option Request → Option Replied
unfolding answer_ping
answer_request allocated now s msg_type request =
    if msg_type == msg_type_ping
    then answer_ping allocated now s request
    else if msg_type == msg_type_heavy_payload
    then some (silent s ipc_success)
    else if msg_type == msg_type_burst
    then (request >>= λ d.
        some (with_reply allocated s (Reply.word d.word) 4 stress_status_burst_ok))
    else if msg_type == msg_type_timeout_test
    then (request >>= λ d. some (
        with_reply allocated (record s { timeouts = add32 s.timeouts 1 }) (Reply.word d.word) 4
          stress_status_timeout_ok))
    else if msg_type == msg_type_share_memory
    then some (silent s ipc_success)
    else if msg_type == msg_type_stats_req
    then some (with_reply allocated s (Reply.stats (payload_of s)) 20 ipc_success)
    else some (silent s ipc_error_invalid_param)

-- `if (!reply)` at the end.
count_silence : Replied → Replied
count_silence a = elim a.reply [ none ↦ record a { stats = count_error a.stats } | some r ↦ a ]

-- The library calls it with `*reply_size` at 0 and `*reply_status` at IPC_SUCCESS.
pub on_message_with_reply :
    (allocated : Bool) (now : ℕ)
    → ServerStats
    → (msg_type size : ℕ) → Option Request
    → Option Replied
unfolding answer_request count_silence
on_message_with_reply allocated now s msg_type size request = do
  a ← answer_request allocated now (count_message s size) msg_type request
  some (count_silence a)
