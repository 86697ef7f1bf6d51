-- ===== src/Stress/Client/Counts.antt =====
-- What the tests come to together.
use mathlib.Core.List.{append_assoc, append-nil}
use mach_ipc.Base.{
  ℕ, zero, suc, ◌+◌, ◌%◌, ◌^◌, ◌≡◌, ◌≤◌, ◌≢◌, refl, sym, ◌∙◌, Bool, true, false, none, some,
  get_elem?, ◌||◌, List, [], ◌∷◌, ◌++◌, eq_ℤ, ◌==◌, if◌then◌else◌, arith, Bool-cases, inl, inr, ap,
}
use mach_ipc.Protocol.Types.{Buffer, ipc_success, ipc_error_timeout}
use mach_ipc.Request.{ply_free}
use mach_ipc.Stress.Client.{
  ClientStats, World, Progress, zero_stats, on_message, burst_loop, test_ping_flood,
  test_burst_mode, test_timeout, test_get_stats, run_test, receive_all, run_tests, wait_ends,
  client_disconnect, client_destroy, lock_destroy, finish_main, main,
}
use mach_ipc.Stress.Client.Laws.{outcomes, rounds, replies, test_ping_flood_lem}

-- A test that starts with `s` sends `n` pings, counts `m` outcomes and gives `l` back.
record Adds (s : ClientStats) (p : Progress) (n m : ℕ) (l : List Buffer) : Type 0 where
  sent : p.stats.pings_sent % 2 ^ 32 ≡ (s.pings_sent + n) % 2 ^ 32
  counted : outcomes p.stats % 2 ^ 32 ≡ (outcomes s + m) % 2 ^ 32
  freed : p.freed ≡ l

-- The messages of a burst that could not be sent.
unfoldable pub failures : World → (left i : ℕ) → ℕ
failures w zero i = 0
failures w (suc left) i =
    let rest = failures w left (i + 1) in
    if w.running_burst i then (if eq_ℤ (w.burst_status i) ipc_success then 0 else 1) + rest else 0

burst_counts :
    (w : World) (left i : ℕ) (s : ClientStats)
    → (outcomes (burst_loop w left i s) % 2 ^ 32 ≡ (outcomes s + failures w left i) % 2 ^ 32)
      × ((burst_loop w left i s).pings_sent ≡ s.pings_sent)
unfolding burst_loop failures
burst_counts w zero i s = (omega arith, refl)
burst_counts w (suc left) i s = elim (Bool-cases (w.running_burst i)) [
  | inr r ↦ rw r (omega arith, refl)
  | inl r ↦ elim (Bool-cases (eq_ℤ (w.burst_status i) ipc_success)) [
    | inl good ↦
        rw (r, good) (let rest = burst_counts w left (i + 1) s in (omega (arith, rest.0), rest.1))
    | inr bad ↦
        rw (r, bad)
          (let rest = burst_counts w left (i + 1) (record s { errors = (s.errors + 1) % 2 ^ 32 }) in
            (omega (arith, rest.0), rest.1))
  ]
]

receive_counts :
    (ts : List ℕ) (s : ClientStats)
    → (outcomes (receive_all ts s) ≡ outcomes s) × ((receive_all ts s).pings_sent ≡ s.pings_sent)
unfolding receive_all on_message
receive_counts [] s = (refl, refl)
receive_counts (t ∷ ts) s =
    let rest = receive_counts ts (on_message s t) in (rest.0 ∙ ground arith, rest.1 ∙ ground arith)

abbrev pub long_timeouts : World → ℕ
long_timeouts w = if eq_ℤ w.long_answer.status ipc_error_timeout then 1 else 0

timeout-Adds :
    (w : World) (s : ClientStats)
    → Adds s
        (test_timeout w s)
        0
        (long_timeouts w)
        (ply_free w.short_answer.reply ++ ply_free w.long_answer.reply)
unfolding test_timeout
timeout-Adds w s = record { sent = ground arith; counted = ground arith; freed = refl }

burst-Adds :
    (w : World) (s : ClientStats)
    → Adds s (test_burst_mode w 500 s) 0 (failures w 500 0) (ply_free w.burst_answer.reply)
unfolding test_burst_mode
burst-Adds w s =
    let c = burst_counts w 500 0 s in
    record { sent = omega (arith, c.1); counted = c.0; freed = refl }

-- The same from one point to another.
record Sums (p q : Progress) (n m : ℕ) (l : List Buffer) : Type 0 where
  sent : q.stats.pings_sent % 2 ^ 32 ≡ (p.stats.pings_sent + n) % 2 ^ 32
  counted : outcomes q.stats % 2 ^ 32 ≡ (outcomes p.stats + m) % 2 ^ 32
  freed : q.freed ≡ p.freed ++ l

abbrev pub runs : (test_mode number : ℕ) → Bool
runs test_mode number = test_mode == 0 || test_mode == number

run_test-Sums :
    (test_mode number : ℕ) (test : ClientStats → Progress) (n m : ℕ) (l : List Buffer)
    (p : Progress)
    → Adds p.stats (test p.stats) n m l
    → let b = runs test_mode number in
      Sums p
        (run_test test_mode number test p)
        (if b then n else 0)
        (if b then m else 0)
        (if b then l else [])
unfolding run_test
run_test-Sums test_mode number test n m l p a = elim (Bool-cases (runs test_mode number)) [
  | inl b ↦
      rw b (record { sent = a.sent; counted = a.counted; freed = ap (λ x. p.freed ++ x) a.freed })
  | inr b ↦
      rw b (record { sent = omega arith; counted = omega arith; freed = sym (append-nil p.freed) })
]

-- What `main` leaves, for the tests that the mode asks for.
pub record Final (w : World) (test_mode : ℕ) (p : Progress) : Type 0 where
  pub sent : p.stats.pings_sent % 2 ^ 32 ≡ (if runs test_mode 1 then rounds w.running 1000 0 else 0)
  pub counted : outcomes p.stats % 2 ^ 32 ≡ (
      (if runs test_mode 1 then rounds w.running 1000 0 else 0)
      + (if runs test_mode 3 then failures w 500 0 else 0)
      + (if runs test_mode 5 then long_timeouts w else 0))
  pub freed :
      p.freed
      ≡ (if runs test_mode 1 then replies w (rounds w.running 1000 0) 0 else [])
        ++ ((if runs test_mode 3 then ply_free w.burst_answer.reply else [])
            ++ ((if runs test_mode 5
                  then ply_free w.short_answer.reply ++ ply_free w.long_answer.reply
                  else [])
                ++ (if runs test_mode 7 then ply_free w.stats_answer.reply else [])))

rounds-le : (running : ℕ → Bool) (left i : ℕ) → rounds running left i ≤ left
unfolding rounds
rounds-le running zero i = omega arith
rounds-le running (suc left) i = ground (arith, rounds-le running left (i + 1))

failures-le : (w : World) (left i : ℕ) → failures w left i ≤ left
unfolding failures
failures-le w zero i = omega arith
failures-le w (suc left) i = ground (arith, failures-le w left (i + 1))

if_le : (b : Bool) {n m : ℕ} → n ≤ m → (if b then n else 0) ≤ m
if_le b h = ground arith

long_timeouts-le : (w : World) → long_timeouts w ≤ 1
long_timeouts-le w = ground arith

if_zero : (b : Bool) → ◌≡◌ {A = ℕ} (if b then 0 else 0) 0
if_zero b = ground arith

-- Four additions of little on 32 bits.
add_up :
    (a b c d e : ℕ) {x y z u : ℕ}
    → a % 2 ^ 32 ≡ (0 + x) % 2 ^ 32
    → b % 2 ^ 32 ≡ (a + y) % 2 ^ 32
    → c % 2 ^ 32 ≡ (b + z) % 2 ^ 32
    → d % 2 ^ 32 ≡ (c + u) % 2 ^ 32
    → e ≡ d
    → x ≤ 1000
    → y ≤ 500
    → z ≤ 1
    → u ≡ 0
    → e % 2 ^ 32 ≡ x + y + z
add_up a b c d e i j k l m n o p q = omega arith

four :
    (a b c d : List Buffer) {p q r t : List Buffer}
    → p ≡ a
    → q ≡ p ++ b
    → r ≡ q ++ c
    → t ≡ r ++ d
    → t ≡ a ++ (b ++ (c ++ d))
four a b c d e f g h = rw (h, g, f, e, append_assoc (a ++ b) c d, append_assoc a b (c ++ d)) refl

get_stats-Adds :
    (w : World) (s : ClientStats) → Adds s (test_get_stats w s) 0 0 (ply_free w.stats_answer.reply)
unfolding test_get_stats
get_stats-Adds w s = record { sent = omega arith; counted = omega arith; freed = refl }

module _ (w : World) (t : ℕ) where
  p0 : Progress
  p0 = record { stats = zero_stats; freed = [] }

  abbrev p1 : Progress
  p1 = run_test t 1 (test_ping_flood w 1000) p0

  abbrev p3 : Progress
  p3 = run_test t 3 (test_burst_mode w 500) p1

  abbrev p5 : Progress
  p5 = run_test t 5 (test_timeout w) p3

  abbrev p7 : Progress
  p7 = run_test t 7 (test_get_stats w) p5

  flood-Adds :
      Adds zero_stats
        (test_ping_flood w 1000 zero_stats)
        (rounds w.running 1000 0)
        (rounds w.running 1000 0)
        (replies w (rounds w.running 1000 0) 0)
  flood-Adds =
      let f = test_ping_flood_lem w 1000 zero_stats in
      record { sent = f.sent; counted = f.counted; freed = f.freed }

  zero_le : (number n : ℕ) → (if runs t number then 0 else 0) ≤ n
  zero_le number n = omega (arith, if_zero (runs t number))

  run_tests-Final : Final w t (run_tests w t)
  unfolding run_tests p0
  run_tests-Final =
      let s1 = run_test-Sums t 1 (test_ping_flood w 1000) _ _ _ p0 flood-Adds in
      let s3 = run_test-Sums t 3 (test_burst_mode w 500) _ _ _ p1 (burst-Adds w p1.stats) in
      let s5 = run_test-Sums t 5 (test_timeout w) _ _ _ p3 (timeout-Adds w p3.stats) in
      let s7 = run_test-Sums t 7 (test_get_stats w) _ _ _ p5 (get_stats-Adds w p5.stats) in
      let r = receive_counts w.received p7.stats in
      let le1 = if_le (runs t 1) (rounds-le w.running 1000 0) in
      record {
        sent = omega (
          arith,
          add_up p1.stats.pings_sent p3.stats.pings_sent p5.stats.pings_sent p7.stats.pings_sent _
              s1.sent s3.sent s5.sent s7.sent r.1 le1 (zero_le 3 500) (zero_le 5 1)
              (if_zero (runs t 7)),
          if_zero (runs t 3),
          if_zero (runs t 5),
        );
        counted =
            add_up (outcomes p1.stats) (outcomes p3.stats) (outcomes p5.stats) (outcomes p7.stats) _
              s1.counted s3.counted s5.counted s7.counted r.0 le1
              (if_le (runs t 3) (failures-le w 500 0)) (if_le (runs t 5) (long_timeouts-le w))
              (if_zero (runs t 7));
        freed = four _ _ _ _ s1.freed s3.freed s5.freed s7.freed;
      }

wait_goes_on :
    (looks : List Bool) → ((n : ℕ) → get_elem? looks n ≢ some false) → wait_ends looks ≡ false
unfolding wait_ends
wait_goes_on [] h = refl
wait_goes_on (true ∷ looks) h = wait_goes_on looks (λ n. h (suc n))
wait_goes_on (false ∷ looks) h = absurd (h 0 refl)

wait_stops : (looks : List Bool) (n : ℕ) → get_elem? looks n ≡ some false → wait_ends looks ≡ true
unfolding wait_ends
wait_stops [] n e = absurd cc
wait_stops (true ∷ looks) zero e = absurd cc
wait_stops (false ∷ looks) zero e = refl
wait_stops (true ∷ looks) (suc n) e = wait_stops looks n e
wait_stops (false ∷ looks) (suc n) e = refl

-- Once the client is connected, `main` runs the tests, and then waits. As long as each look finds that
-- `g_running` is set and the client connected, it has not ended and has released nothing; if one finds
-- otherwise, it disconnects the client, destroys it and then the lock, each once, and ends with 0.
-- The pings counted as sent are those that were sent; those received, the timeouts and the errors together
-- are the pings, the messages of the burst that could not be sent, and the delay that timed out; and the
-- replies that came are given back in their order, each once. Each test counts only if the mode asks for
-- it. The messages that come from the server do not disturb the count.
pub main-Final :
    (w : World) (test_mode : ℕ)
    → w.client_made ≡ true
    → eq_ℤ w.connect_status ipc_success ≡ true
    → (p : Progress) × Final w test_mode p
      × (((n : ℕ) → get_elem? w.looks n ≢ some false)
          → main w test_mode ≡ record { exit_code = none; progress = p; calls = [] })
      × ((n : ℕ)
          → get_elem? w.looks n ≡ some false
          → main w test_mode ≡ record {
            exit_code = some 0;
            progress = p;
            calls = client_disconnect ∷ client_destroy ∷ lock_destroy ∷ [];
          })
unfolding main run_tests finish_main
main-Final w t made good = (
  run_tests w t,
  run_tests-Final w t,
  λ h. simp (made, good, wait_goes_on w.looks h),
  λ n e. simp (made, good, wait_stops w.looks n e),
)
