-- ===== src/Stress/Client/Tests.antt =====
-- Runs of the stress test's client.
use mach_ipc.Base.{
  ℕ, ◌≢◌, none, some, false, get_elem?, ◌≡◌, refl, true, [], ◌∷◌, pos, negsuc, ltb, if◌then◌else◌,
}
use mach_ipc.Stress.Client.{
  World, Progress, Answer, zero_stats, test_ping_flood, client_disconnect, client_destroy,
  lock_destroy, main,
}
use mach_ipc.Stress.Client.Counts.{Final, main-Final}

abbrev nothing : Answer
nothing = record { status = negsuc 3; reply = record { address = 0; size = 0 } }

abbrev pong : Answer
pong = record { status = pos 1001; reply = record { address = 4096; size = 24 } }

-- The first three pings are answered, and then none.
abbrev world : World
world = record {
  client_made = true;
  connect_status = pos 0;
  running = λ i. true;
  trip = λ i. record { timestamp = 5; now_us = 9; answer = if ltb i 3 then pong else nothing };
  running_burst = λ i. true;
  burst_status = λ i. pos 0;
  burst_answer = pong;
  short_answer = nothing;
  long_answer = nothing;
  stats_answer = nothing;
  received = 6 ∷ 4 ∷ [];
  looks = true ∷ false ∷ [];
}

four_pings : (test_ping_flood world 4 zero_stats).stats.total_latency_us ≡ 12
unfolding test_ping_flood
four_pings = refl

main-Final_example :
    (p : Progress) × Final world 5 p
    × (((n : ℕ) → get_elem? world.looks n ≢ some false)
        → main world 5 ≡ record { exit_code = none; progress = p; calls = [] })
    × ((n : ℕ)
        → get_elem? world.looks n ≡ some false
        → main world 5 ≡ record {
          exit_code = some 0;
          progress = p;
          calls = client_disconnect ∷ client_destroy ∷ lock_destroy ∷ [];
        })
main-Final_example = main-Final world 5 refl refl
