-- ===== src/Protocol/Calls/Phases.antt =====
-- What holds between the pool and the calls at work on it.
use mach_ipc.Base.{ℕ, ◌<◌, ◌^◌, ◌≡◌, Bool, true, false, Option, none, some, List, pos}
use mach_ipc.Pool.{Pool}
use mach_ipc.Pool.Inv.{Inv}
use mach_ipc.Pool.Active.{active}
use mach_ipc.Protocol.Ack.{Incoming, Waiter}
use mach_ipc.Protocol.Ack.Waiters.{matches}
use mach_ipc.Protocol.Ack.Deliver.{waiter}
use mach_ipc.Protocol.Ack.Slot.{Held}
use mach_ipc.Protocol.WithAck.{Shared}
use mach_ipc.Protocol.Calls.{Stage, closing, Phase, inside, finished}

-- The slot that a call has.
abbrev pub slot_held : Phase → Option ℕ
slot_held (inside stage slot cid) = some slot
slot_held _ = none

-- The call has not cancelled its waiter unless it is about to close it.
abbrev IsOpen : Stage → Bool → Type 0
IsOpen closing cancelled = Unit
IsOpen _ cancelled = cancelled ≡ false

-- The waiter `w` is that of the call with correlation id `cid` in slot `i`: any reply in it is for
-- this call, and nobody but the call has cancelled it.
pub record Known (stage : Stage) (i cid : ℕ) (w : Waiter) : Type 0 where
  pub numbered_so : w.correlation_id ≡ cid
  pub genuine : (r : Incoming) → w.reply ≡ some r → matches cid i r ≡ true
  pub open_until : IsOpen stage w.cancelled

-- What a call may rely on: its slot is taken and its waiter is its own; a reply that it has returned
-- with is an acknowledgment of its message.
abbrev pub IsFresh : Pool Waiter → List ℕ → Phase → Type 0
IsFresh p free (inside stage slot cid) = Held p free slot × Known stage slot cid (waiter p slot)
IsFresh p free (finished slot cid (some r)) = matches cid slot r ≡ true
IsFresh p free _ = Unit

pub record CallsInv (s : Shared) (phase : ℕ → Phase) (free : List ℕ) : Type 0 where
  pub pool : Inv s.ack_pool free
  pub small : s.next_correlation_id < 2 ^ 64
  pub fresh : (t : ℕ) → IsFresh s.ack_pool free (phase t)
  -- No two calls have the same slot.
  pub unique : (t u i : ℕ) → slot_held (phase t) ≡ some i → slot_held (phase u) ≡ some i → t ≡ u
  -- A slot in use belongs to a call at work: none is lost.
  pub owned :
      (i : ℕ)
      → active s.ack_pool.capacity free (pos i) ≡ true
      → (t : ℕ) × (slot_held (phase t) ≡ some i)
