-- ===== src/Deadline/Laws.antt =====
-- Deadlines as numbers of nanoseconds.
use mach_ipc.Base.{ℕ, ◌+◌, ◌*◌, ◌^◌, ◌<◌, ◌≤◌, ◌≡◌, ◌↔◌, true, arith}
use mach_ipc.Deadline.{
  Timespec, nsec_per_sec, nsec_per_msec, user_ply_safety_ms, calc_deadline, is_deadline_expired,
  has_no_deadline, user_payload_is_save,
}

-- Nanoseconds since the origin of the clock.
abbrev pub nanos : Timespec → ℕ
nanos t = t.tv_sec * nsec_per_sec + t.tv_nsec

-- What `clock_gettime` returns.
abbrev pub IsNormal : Timespec → Type 0
IsNormal t = t.tv_nsec < nsec_per_sec

-- From a normalised clock reading `calc_deadline` computes the normalised time that lies exactly
-- `timeout_ms` milliseconds later, for every timeout.
pub calc_deadline_exact :
    (now : Timespec) (timeout_ms : ℕ)
    → IsNormal now
    → IsNormal (calc_deadline now timeout_ms)
      × (nanos (calc_deadline now timeout_ms) ≡ nanos now + timeout_ms * nsec_per_msec)
unfolding calc_deadline
calc_deadline_exact now timeout_ms h = ground arith

-- For normalised times and a margin whose nanoseconds fit 63 bits, a deadline counts as expired
-- exactly from `safety_ms` milliseconds after it on.
pub is_deadline_expired_iff :
    (now deadline : Timespec) (safety_ms : ℕ)
    → IsNormal now
    → IsNormal deadline
    → safety_ms < 2 ^ 43
    → (is_deadline_expired now deadline safety_ms ≡ true)
      ↔ (nanos deadline + safety_ms * nsec_per_msec ≤ nanos now)
unfolding is_deadline_expired
is_deadline_expired_iff now deadline safety_ms hn hd hs = ground arith

-- The receiver's test, for a payload sent at `sent` with a positive timeout: it passes exactly while
-- fewer than `timeout_ms + 10` milliseconds have gone by.
pub user_payload_is_save_iff :
    (sent now : Timespec) (timeout_ms : ℕ)
    → IsNormal sent
    → IsNormal now
    → 0 < timeout_ms
    → (user_payload_is_save now (calc_deadline sent timeout_ms) ≡ true)
      ↔ (nanos now < nanos sent + (timeout_ms + user_ply_safety_ms) * nsec_per_msec)
unfolding user_payload_is_save has_no_deadline
user_payload_is_save_iff sent now timeout_ms hs hn pos = ground (
  arith,
  calc_deadline_exact sent timeout_ms hs,
  is_deadline_expired_iff now (calc_deadline sent timeout_ms) user_ply_safety_ms hn,
)

pub has_no_deadline_iff : (t : Timespec) → (has_no_deadline t ≡ true) ↔ (nanos t ≡ 0)
unfolding has_no_deadline
has_no_deadline_iff t = ground arith
