-- ===== src/Protocol/Calls/Tests.antt =====
-- Two threads that call at once, and the lemmas about all orders of steps applied.
use mach_ipc.Base.{ℕ, ◌≡◌, refl, Bool, true, some, List, [], ◌∷◌, ℤ, pos, arith}
use mach_ipc.Pool.{Pool}
use mach_ipc.Pool.Inv.{Inv}
use mach_ipc.Pool.Init.{fresh, fresh-Inv, count_up}
use mach_ipc.Protocol.Ack.{Incoming, Waiter, handle_ack_message}
use mach_ipc.Protocol.Ack.Deliver.{blank}
use mach_ipc.Protocol.Ack.Slot.{registered, registered-Held, register_lem, Held}
use mach_ipc.Protocol.Calls.{
  System, idle, numbered, inside, sending, number, register, call, Reach, start, later, update,
}
use mach_ipc.Protocol.Calls.Phases.{CallsInv}
use mach_ipc.Protocol.WithAck.Schedule.Progress.{IsLimited, IsStuck, CanReturn, Reach-CanReturn}
use mach_ipc.Protocol.Calls.Reached.{initial, Runs, Reach-CallsInv, Reach-Runs}

abbrev slots : List Waiter
slots = blank ∷ blank ∷ []

abbrev links : List ℤ
links = pos 7 ∷ pos 7 ∷ []

abbrev first_pool : Pool Waiter
first_pool = fresh 1 slots links

first_pool-Inv : Inv first_pool (count_up 0 2)
first_pool-Inv = fresh-Inv 1 slots links refl refl

-- Thread 1 has taken the first slot, with correlation id 2.
one_inside-Held : Held (registered first_pool 0 2) (1 ∷ []) 0
one_inside-Held = registered-Held first_pool-Inv 2

abbrev both_inside : System
both_inside = record {
  shared = record {
    ack_pool = registered (registered first_pool 0 2) 1 1;
    next_correlation_id = 3;
  };
  phase =
      update
        (update (update (update (λ _. idle) 0 (numbered 100 1)) 1 (numbered 0 2)) 1
          (inside (sending 0) 0 2))
        0 (inside (sending 100) 1 1);
}

-- Both threads take their ids before either takes a slot, and the second is the first to get one.
both_inside-Reach : Reach (initial 1 slots links 1) both_inside
both_inside-Reach =
    later
      (later (later (later start (call 0 (number 100))) (call 1 (number 0)))
        (call 1 (register true (register_lem first_pool-Inv 2 refl))))
      (call 0 (register true (register_lem one_inside-Held.inv 1 refl)))

Reach-CallsInv_example : (free : List ℕ) × CallsInv both_inside.shared both_inside.phase free
Reach-CallsInv_example = Reach-CallsInv 1 slots links 1 refl refl (omega arith) both_inside-Reach

Reach-Runs_example :
    ((t : ℕ) → Runs both_inside.shared.ack_pool (both_inside.phase t))
    × ((ack : Incoming)
        → (r : Bool × Pool Waiter) × (handle_ack_message both_inside.shared.ack_pool ack ≡ some r))
Reach-Runs_example = Reach-Runs 1 slots links 1 refl refl (omega arith) both_inside-Reach

-- Thread 0 is about to send, with a timeout.
Reach-CanReturn_example :
    (IsLimited both_inside.shared.ack_pool (both_inside.phase 0) → CanReturn both_inside 0)
    × IsStuck both_inside 0
Reach-CanReturn_example =
    Reach-CanReturn 1 slots links 1 refl refl (omega arith) both_inside-Reach 0
