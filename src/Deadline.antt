-- ===== src/Deadline.antt =====
-- src/utils.c, `calc_deadline`, `is_deadline_expired` and `has_no_deadline`: until when a user
-- payload that is shared with the sender may be read. The clock is an argument of each function.
pub mod Laws
mod Tests
use mach_ipc.Base.{
  ℕ, ◌+◌, ◌-◌, ◌*◌, ◌/◌, ◌%◌, ◌^◌, Bool, true, false, not, ◌&&◌, ◌||◌, ltb, leb, ◌==◌,
  if◌then◌else◌,
}

-- `struct timespec`. Both fields are 64 bits wide; no sum below comes near 2 ^ 63 for a clock that
-- has run for less than 2 ^ 62 seconds, so they do not wrap.
pub record Timespec : Type 0 where
  pub tv_sec : ℕ
  pub tv_nsec : ℕ

abbrev pub nsec_per_sec : ℕ
nsec_per_sec = 1000000000

abbrev pub nsec_per_msec : ℕ
nsec_per_msec = 1000000

-- USER_PLY_SAFETY_MS
abbrev pub user_ply_safety_ms : ℕ
user_ply_safety_ms = 10

-- `normalize in case tv_nsec >= 1 second`
carry : Timespec → Timespec
carry t =
    if leb nsec_per_sec t.tv_nsec
    then record { tv_sec = t.tv_sec + 1; tv_nsec = t.tv_nsec - nsec_per_sec }
    else t

unfoldable pub calc_deadline : (now : Timespec) (timeout_ms : ℕ) → Timespec
unfolding carry
calc_deadline now timeout_ms = carry (record {
  tv_sec = now.tv_sec + timeout_ms / 1000;
  tv_nsec = now.tv_nsec + timeout_ms % 1000 * nsec_per_msec;
})

-- The deadline with the safety margin added. The product is computed in 64 bits.
safe_deadline : (deadline : Timespec) (safety_ms : ℕ) → Timespec
safe_deadline deadline safety_ms =
    let nsec = deadline.tv_nsec + safety_ms * nsec_per_msec % 2 ^ 64 in
    if leb nsec_per_sec nsec
    then record { tv_sec = deadline.tv_sec + nsec / nsec_per_sec; tv_nsec = nsec % nsec_per_sec }
    else record { tv_sec = deadline.tv_sec; tv_nsec = nsec }

-- `now >= deadline`, seconds first.
reached : (now deadline : Timespec) → Bool
reached now deadline =
    if ltb deadline.tv_sec now.tv_sec
    then true
    else (now.tv_sec == deadline.tv_sec && leb deadline.tv_nsec now.tv_nsec)

pub is_deadline_expired : (now deadline : Timespec) (safety_ms : ℕ) → Bool
unfolding safe_deadline reached
is_deadline_expired now deadline safety_ms = reached now (safe_deadline deadline safety_ms)

pub has_no_deadline : Timespec → Bool
has_no_deadline deadline = deadline.tv_sec == 0 && deadline.tv_nsec == 0

-- `user_payload_is_save` of both message handlers, at the time when the queue runs the block.
unfoldable pub user_payload_is_save : (now deadline : Timespec) → Bool
unfolding has_no_deadline is_deadline_expired
user_payload_is_save now deadline =
    has_no_deadline deadline || not (is_deadline_expired now deadline user_ply_safety_ms)
