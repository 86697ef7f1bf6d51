-- ===== src/Stress/Client/Laws.antt =====
-- How the tests count.
use mach_ipc.Base.{
  ℕ, zero, suc, ◌+◌, ◌%◌, ◌^◌, ◌≡◌, refl, Bool, List, [], ◌++◌, if◌then◌else◌, arith, Bool-cases,
  inl, inr, ap,
}
use mach_ipc.Protocol.Types.{Buffer}
use mach_ipc.Request.{ply_free}
use mach_ipc.Stress.Client.{
  ClientStats, Trip, World, Progress, count_ping, ping_loop, test_ping_flood,
}

-- The rounds that are run: up to the first at which `g_running` is found to be 0.
unfoldable pub rounds : (running : ℕ → Bool) (left i : ℕ) → ℕ
rounds running zero i = 0
rounds running (suc left) i =
    let rest = rounds running left (i + 1) in if running i then suc rest else 0

-- The outcomes of the pings.
abbrev pub outcomes : ClientStats → ℕ
outcomes s = s.pings_received + s.timeouts + s.errors

-- The replies to some pings from `i` on.
unfoldable pub replies : World → (n i : ℕ) → List Buffer
replies w zero i = []
replies w (suc n) i = ply_free (w.trip i).answer.reply ++ replies w n (i + 1)

pings_sent-count_ping :
    (s : ClientStats) (trip : Trip)
    → (count_ping s trip).pings_sent % 2 ^ 32 ≡ (s.pings_sent + 1) % 2 ^ 32
unfolding count_ping
pings_sent-count_ping s trip = ground arith

outcomes-count_ping :
    (s : ClientStats) (trip : Trip)
    → outcomes (count_ping s trip) % 2 ^ 32 ≡ (outcomes s + 1) % 2 ^ 32
unfolding count_ping
outcomes-count_ping s trip = ground arith

-- What a run of pings comes to.
pub record Pinged (w : World) (s : ClientStats) (n i : ℕ) (p : Progress) : Type 0 where
  pub sent : p.stats.pings_sent % 2 ^ 32 ≡ (s.pings_sent + n) % 2 ^ 32
  pub counted : outcomes p.stats % 2 ^ 32 ≡ (outcomes s + n) % 2 ^ 32
  pub freed : p.freed ≡ replies w n i

loop-Pinged :
    (w : World) (left i : ℕ) (s : ClientStats)
    → Pinged w s (rounds w.running left i) i (ping_loop w left i s)
unfolding ping_loop rounds replies
loop-Pinged w zero i s = record { sent = omega arith; counted = omega arith; freed = refl }
loop-Pinged w (suc left) i s =
    let rest = loop-Pinged w left (i + 1) (count_ping s (w.trip i)) in
    elim (Bool-cases (w.running i)) [
      | inl r ↦ rw r (record {
        sent = omega (arith, rest.sent, pings_sent-count_ping s (w.trip i));
        counted = omega (arith, rest.counted, outcomes-count_ping s (w.trip i));
        freed = ap (λ l. ply_free (w.trip i).answer.reply ++ l) rest.freed;
      })
      | inr r ↦ rw r (record { sent = omega arith; counted = omega arith; freed = refl })
    ]

-- The flood of pings sends one in each round until `g_running` is 0 or the count is reached. Up to a
-- multiple of 2 ^ 32, each is counted as sent and counted as one of received, timed out and failed, and the
-- replies given back are those that came, in order, each once.
pub test_ping_flood_lem :
    (w : World) (count : ℕ) (s : ClientStats)
    → Pinged w s (rounds w.running count 0) 0 (test_ping_flood w count s)
unfolding test_ping_flood
test_ping_flood_lem w count s = loop-Pinged w count 0 s
