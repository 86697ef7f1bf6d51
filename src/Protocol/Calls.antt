-- ===== src/Protocol/Calls.antt =====
-- src/protocol.c, `protocol_send_with_ack` called by any number of threads at once on one endpoint,
-- whose receive thread hands in acknowledgments meanwhile. A step is one critical section of
-- `ack_lock`, or what one thread does on its own between two of them; the threads take their steps
-- in any order. A number stands for each thread that sends.
pub mod Phases
pub mod Frame
mod Moves
mod Registers
pub mod Steps
pub mod Reached
mod Tests
use mach_ipc.Base.{
  ℕ, ◌+◌, ◌%◌, ◌^◌, ◌≡◌, ◌≢◌, Bool, true, false, Option, some, ℤ, pos, negsuc, get_elem?, ◌==◌,
  if◌then◌else◌,
}
use mach_ipc.Pool.{Pool, pool_pop}
use mach_ipc.Protocol.Types.{KernReturn, failure, is_success}
use mach_ipc.Protocol.Ack.{
  Incoming, Waiter, register_ack_waiter, handle_ack_message, cancel, collect,
}
use mach_ipc.Protocol.WithAck.{Shared}

-- Where a call stands while it has a slot: the message is yet to be sent, its reply is awaited, the
-- wait has run out, or the last critical section is next. Timeout 0 means no timeout.
pub data Stage : Type 0 where
  sending waiting : (timeout_ms : ℕ) → Stage
  expired closing : Stage

-- Where a call stands. `refused` has returned with an error before its wait, `finished` after it.
pub data Phase : Type 0 where
  idle : Phase
  numbered : (timeout_ms correlation_id : ℕ) → Phase
  inside : Stage → (slot correlation_id : ℕ) → Phase
  refused : KernReturn → Phase
  finished : (slot correlation_id : ℕ) → Option Incoming → Phase

-- The phases after thread `t` has moved on to `ph`.
abbrev pub update : (ℕ → Phase) → (t : ℕ) → Phase → ℕ → Phase
update phase t ph u = if t == u then ph else phase u

-- `s` with the pool `q`.
abbrev pub with_pool : Shared → Pool Waiter → Shared
with_pool s q = record s { ack_pool = q }

-- One step of a call.
pub data Move (s : Shared) : Phase → Shared → Phase → Type 0 where
  number :
      (timeout_ms : ℕ)
      → Move s idle
          (record s { next_correlation_id = (s.next_correlation_id + 1) % 2 ^ 64 })
          (numbered timeout_ms s.next_correlation_id)
  register :
      {timeout_ms cid slot : ℕ} {q : Pool Waiter} (event_made : Bool)
      → register_ack_waiter s.ack_pool event_made cid ≡ some (pos slot, q)
      → Move s
          (numbered timeout_ms cid)
          (with_pool s q)
          (inside (Stage.sending timeout_ms) slot cid)
  register_fails :
      {timeout_ms cid n : ℕ} {q : Pool Waiter} (event_made : Bool)
      → register_ack_waiter s.ack_pool event_made cid ≡ some (negsuc n, q)
      → Move s (numbered timeout_ms cid) (with_pool s q) (refused failure)
  send :
      {timeout_ms slot cid : ℕ}
      → Move s
          (inside (Stage.sending timeout_ms) slot cid)
          s
          (inside (Stage.waiting timeout_ms) slot cid)
  send_fails :
      {timeout_ms slot cid : ℕ} {q : Pool Waiter} (k : KernReturn)
      → is_success k ≡ false
      → pool_pop s.ack_pool (pos slot) ≡ some q
      → Move s (inside (Stage.sending timeout_ms) slot cid) (with_pool s q) (refused k)
  wake :
      {timeout_ms slot cid : ℕ} (w : Waiter)
      → get_elem? s.ack_pool.slots slot ≡ some w
      → w.event ≡ true
      → Move s (inside (Stage.waiting timeout_ms) slot cid) s (inside Stage.closing slot cid)
  run_out :
      {timeout_ms slot cid : ℕ} (w : Waiter)
      → timeout_ms ≢ 0
      → get_elem? s.ack_pool.slots slot ≡ some w
      → w.event ≡ false
      → Move s (inside (Stage.waiting timeout_ms) slot cid) s (inside Stage.expired slot cid)
  give_up :
      {slot cid : ℕ} {q : Pool Waiter}
      → cancel s.ack_pool slot ≡ some q
      → Move s (inside Stage.expired slot cid) (with_pool s q) (inside Stage.closing slot cid)
  close :
      {slot cid : ℕ} {reply : Option Incoming} {q : Pool Waiter}
      → collect s.ack_pool slot ≡ some (reply, q)
      → Move s (inside Stage.closing slot cid) (with_pool s q) (finished slot cid reply)
  after_error : {k : KernReturn} → Move s (refused k) s idle
  after_wait : {slot cid : ℕ} {reply : Option Incoming} → Move s (finished slot cid reply) s idle

pub record System : Type 0 where
  pub shared : Shared
  pub phase : ℕ → Phase

-- A step of one thread that sends, or an acknowledgment in the receive thread.
pub data Step (s : System) : System → Type 0 where
  call :
      (t : ℕ) {after : Shared} {ph : Phase}
      → Move s.shared (s.phase t) after ph
      → Step s (record { shared = after; phase = update s.phase t ph })
  receive :
      {taken : Bool} {q : Pool Waiter} (ack : Incoming)
      → handle_ack_message s.shared.ack_pool ack ≡ some (taken, q)
      → Step s (record s { shared = with_pool s.shared q })

-- What steps in any order lead to.
pub data Reach (s : System) : System → Type 0 where
  start : Reach s s
  later : {t u : System} → Reach s t → Step t u → Reach s u
