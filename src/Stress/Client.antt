-- ===== src/Stress/Client.antt =====
-- src/examples/stress_test_client.c: the tests and their statistics, of 32 bits each, with a latency of
-- 64 bits. What the library answers to each call, the times that are read and `g_running` are those of
-- a `World`; the texts that are printed and the pauses are left out, and with them the tests 2 and 6,
-- which only print. Messages from the server come in between the tests.
pub mod Laws
pub mod Counts
mod Tests
use mach_ipc.Base.{
  ℕ, zero, suc, ◌+◌, ◌-◌, ◌%◌, ◌^◌, Bool, true, false, Option, none, some, not, ◌&&◌, ◌||◌, List,
  [], ◌∷◌, ◌++◌, ℤ, pos, eq_ℤ, ◌==◌, if◌then◌else◌,
}
use mach_ipc.Protocol.Types.{Buffer, ipc_success, ipc_error_timeout}
use mach_ipc.Request.{ply_free}
use mach_ipc.Status.{stress_status_ping_ok}
use mach_ipc.Stress.{msg_type_broadcast_msg, msg_type_echo_back}
use mach_ipc.Stress.Server.{add32}

-- `client_stats_t`
pub record ClientStats : Type 0 where
  pub pings_sent : ℕ
  pub pings_received : ℕ
  pub broadcasts_received : ℕ
  pub echos_received : ℕ
  pub timeouts : ℕ
  pub errors : ℕ
  pub total_latency_us : ℕ

abbrev pub zero_stats : ClientStats
zero_stats = record {
  pings_sent = 0;
  pings_received = 0;
  broadcasts_received = 0;
  echos_received = 0;
  timeouts = 0;
  errors = 0;
  total_latency_us = 0;
}

-- What `mach_client_send_with_reply` returns, with the reply, whose address is 0 if there is none.
pub record Answer : Type 0 where
  pub status : ℤ
  pub reply : Buffer

abbrev pub is_null : Buffer → Bool
is_null b = b.address == 0

-- The message types that the server sends on its own.
pub on_message : ClientStats → (msg_type : ℕ) → ClientStats
on_message s msg_type =
    if msg_type == msg_type_broadcast_msg
    then record s { broadcasts_received = add32 s.broadcasts_received 1 }
    else if msg_type == msg_type_echo_back
    then record s { echos_received = add32 s.echos_received 1 }
    else s

-- The statistics, and the replies that were given back.
pub record Progress : Type 0 where
  pub stats : ClientStats
  pub freed : List Buffer

-- The times around a ping, in microseconds, and its answer.
pub record Trip : Type 0 where
  pub timestamp : ℕ
  pub now_us : ℕ
  pub answer : Answer

pub record World : Type 0 where
  pub client_made : Bool
  pub connect_status : ℤ
  pub running : ℕ → Bool  -- before the ping with this number
  pub trip : ℕ → Trip
  pub running_burst : ℕ → Bool  -- before this message of the burst
  pub burst_status : ℕ → ℤ
  pub burst_answer : Answer
  pub short_answer : Answer  -- test 5, with the delay of 500 ms and with that of 3 s
  pub long_answer : Answer
  pub stats_answer : Answer
  pub received : List ℕ  -- the types of the messages that come from the server
  pub looks : List Bool  -- what the looks find, at the end, so far: that it goes on, or not

-- One ping, under the lock of the statistics.
pub count_ping : ClientStats → Trip → ClientStats
count_ping s trip =
    let t = record s { pings_sent = add32 s.pings_sent 1 } in
    let latency = (trip.now_us + 2 ^ 64 - trip.timestamp) % 2 ^ 64 in
    if eq_ℤ trip.answer.status stress_status_ping_ok && not (is_null trip.answer.reply)
    then record t {
      pings_received = add32 t.pings_received 1;
      total_latency_us = (t.total_latency_us + latency) % 2 ^ 64;
    }
    else if eq_ℤ trip.answer.status ipc_error_timeout
    then record t { timeouts = add32 t.timeouts 1 }
    else record t { errors = add32 t.errors 1 }

-- `for (int i = 0; i < count && g_running; i++)`, with `left` rounds to go.
pub ping_loop : World → (left i : ℕ) → ClientStats → Progress
unfolding count_ping
ping_loop w zero i s = record { stats = s; freed = [] }
ping_loop w (suc left) i s =
    let rest = ping_loop w left (i + 1) (count_ping s (w.trip i)) in
    if w.running i
    then record { stats = rest.stats; freed = ply_free (w.trip i).answer.reply ++ rest.freed }
    else record { stats = s; freed = [] }

pub test_ping_flood : World → (count : ℕ) → ClientStats → Progress
unfolding ping_loop
test_ping_flood w count s = ping_loop w count 0 s

-- The messages of a burst.
pub burst_loop : World → (left i : ℕ) → ClientStats → ClientStats
burst_loop w zero i s = s
burst_loop w (suc left) i s =
    let t =
      if eq_ℤ (w.burst_status i) ipc_success then s else record s { errors = add32 s.errors 1 } in
    let rest = burst_loop w left (i + 1) t in if w.running_burst i then rest else s

pub test_burst_mode : World → (count : ℕ) → ClientStats → Progress
unfolding burst_loop
test_burst_mode w count s = record {
  stats = burst_loop w count 0 s;
  freed = ply_free w.burst_answer.reply;
}

pub test_timeout : World → ClientStats → Progress
test_timeout w s = record {
  stats =
      if eq_ℤ w.long_answer.status ipc_error_timeout
      then record s { timeouts = add32 s.timeouts 1 }
      else s;
  freed = ply_free w.short_answer.reply ++ ply_free w.long_answer.reply;
}

pub test_get_stats : World → ClientStats → Progress
test_get_stats w s = record { stats = s; freed = ply_free w.stats_answer.reply }

-- `if (test_mode == 0 || test_mode == number)`
run_test : (test_mode number : ℕ) → (ClientStats → Progress) → Progress → Progress
run_test test_mode number test p =
    let q = test p.stats in
    if test_mode == 0 || test_mode == number
    then record { stats = q.stats; freed = p.freed ++ q.freed }
    else p

receive_all : List ℕ → ClientStats → ClientStats
unfolding on_message
receive_all [] s = s
receive_all (t ∷ ts) s = receive_all ts (on_message s t)

-- The tests that have an effect here, with what comes from the server after the last of them.
run_tests : World → (test_mode : ℕ) → Progress
unfolding run_test test_ping_flood test_burst_mode test_timeout test_get_stats receive_all
run_tests w test_mode =
    let p1 =
      run_test test_mode 1 (test_ping_flood w 1000) (record { stats = zero_stats; freed = [] }) in
    let p3 = run_test test_mode 3 (test_burst_mode w 500) p1 in
    let p5 = run_test test_mode 5 (test_timeout w) p3 in
    let p7 = run_test test_mode 7 (test_get_stats w) p5 in
    record p7 { stats = receive_all w.received p7.stats }

-- `while (g_running && mach_client_is_connected(g_client))`: whether one of the looks at the condition
-- finds it false, so that the loop ends.
pub wait_ends : List Bool → Bool
wait_ends [] = false
wait_ends (goes_on ∷ looks) = let rest = wait_ends looks in if goes_on then rest else true

-- What `main` does at its end.
pub data FinalCall : Type 0 where
  client_disconnect client_destroy lock_destroy : FinalCall

-- The exit code, `none` while `main` waits, the statistics and the replies given back, and the calls at
-- the end, in their order.
pub record Ended : Type 0 where
  pub exit_code : Option ℕ
  pub progress : Progress
  pub calls : List FinalCall

-- Behind the tests.
finish_main : List Bool → Progress → Ended
unfolding wait_ends
finish_main looks p =
    if wait_ends looks
    then record {
      exit_code = some 0;
      progress = p;
      calls = client_disconnect ∷ client_destroy ∷ lock_destroy ∷ [];
    }
    else record { exit_code = none; progress = p; calls = [] }

pub main : World → (test_mode : ℕ) → Ended
unfolding run_tests finish_main
main w test_mode =
    let nothing : Progress = record { stats = zero_stats; freed = [] } in
    if not w.client_made
    then record { exit_code = some 1; progress = nothing; calls = [] }
    else if eq_ℤ w.connect_status ipc_success
    then finish_main w.looks (run_tests w test_mode)
    else record { exit_code = some 1; progress = nothing; calls = client_destroy ∷ [] }
