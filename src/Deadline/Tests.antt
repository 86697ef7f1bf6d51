-- ===== src/Deadline/Tests.antt =====
-- Deadlines at concrete times, and the lemmas about them applied.
use mach_ipc.Base.{◌+◌, ◌*◌, ◌<◌, ◌≡◌, ◌↔◌, refl, true, arith}
use mach_ipc.Deadline.{
  Timespec, nsec_per_msec, user_ply_safety_ms, calc_deadline, user_payload_is_save,
}
use mach_ipc.Deadline.Laws.{nanos, IsNormal, calc_deadline_exact, user_payload_is_save_iff}

abbrev sent : Timespec
sent = record { tv_sec = 7; tv_nsec = 999000000 }

-- 105 ms later.
abbrev later : Timespec
later = record { tv_sec = 8; tv_nsec = 104000000 }

-- Five milliseconds after a timeout of 100 ms the payload passes for safe.
safe_after_timeout : user_payload_is_save later (calc_deadline sent 100) ≡ true
unfolding user_payload_is_save calc_deadline
safe_after_timeout = refl

calc_deadline_exact_example :
    IsNormal (calc_deadline sent 1500)
    × (nanos (calc_deadline sent 1500) ≡ nanos sent + 1500 * nsec_per_msec)
calc_deadline_exact_example = calc_deadline_exact sent 1500 (omega arith)

user_payload_is_save_iff_example :
    (user_payload_is_save later (calc_deadline sent 100) ≡ true)
    ↔ (nanos later < nanos sent + (100 + user_ply_safety_ms) * nsec_per_msec)
user_payload_is_save_iff_example =
    user_payload_is_save_iff sent later 100 (omega arith) (omega arith) (omega arith)
