-- ===== src/Protocol/Ack.antt =====
-- src/protocol.c, the acknowledgments: `register_ack_waiter`, `handle_ack_message`, and what
-- `protocol_send_with_ack` does under the lock after its wait. Each function is one critical section
-- of `ack_lock`; `none` is an access out of bounds. A pointer to a waiter is its slot in the pool.
pub mod Deliver
pub mod Waiters
pub mod Slot
pub mod Owner
use mach_ipc.Base.{
  ℕ, Bool, true, false, not, ◌||◌, Option, none, some, ◌>>=◌, List, [], ◌∷◌, get_elem?, store, ℤ,
  pos, minus_one, eq_ℤ, ◌==◌, if◌then◌else◌,
}
use mach_ipc.Pool.{Pool, pool_push, pool_pop, pool_get}
use mach_ipc.Protocol.Types.{Payload, Buffer}

-- An acknowledgment as the receive loop has it: the address and contents of its payload.
pub record Incoming : Type 0 where
  pub address : ℕ
  pub content : Payload
  pub size : ℕ
  pub user : Buffer

-- `ack_waiter_t`. `event` is whether the event has been signalled: it is signalled at most once and
-- waited for once, so that its wait succeeds exactly then.
pub record Waiter : Type 0 where
  pub correlation_id : ℕ
  pub event : Bool
  pub reply : Option Incoming  -- reply_payload, reply_size, reply_user_payload, reply_user_size
  pub received : Bool
  pub cancelled : Bool

abbrev pub new_waiter : ℕ → Waiter
new_waiter correlation_id = record {
  correlation_id = correlation_id;
  event = false;
  reply = none;
  received = false;
  cancelled = false;
}

-- Behind `pool_push`: the slot is initialised, or given back if no event could be made.
fill_slot : Pool Waiter → ℤ → Option ℕ → Bool → ℕ → Option (ℤ × Pool Waiter)
fill_slot p slot none event_made correlation_id = do q ← pool_pop p slot; some (minus_one, q)
fill_slot p slot (some w) false correlation_id = do q ← pool_pop p slot; some (minus_one, q)
fill_slot p slot (some w) true correlation_id = do
  slots ← store p.slots w (new_waiter correlation_id)
  some (slot, record p { slots = slots })

after_push : ℤ × Pool Waiter → Bool → ℕ → Option (ℤ × Pool Waiter)
unfolding fill_slot
after_push (slot, p) event_made correlation_id =
    if eq_ℤ slot minus_one
    then some (minus_one, p)
    else do w ← pool_get p slot; fill_slot p slot w event_made correlation_id

-- `event_made` is whether `event_create` succeeded.
pub register_ack_waiter :
    Pool Waiter → (event_made : Bool) (correlation_id : ℕ) → Option (ℤ × Pool Waiter)
unfolding after_push
register_ack_waiter p event_made correlation_id =
    if correlation_id == 0
    then some (minus_one, p)
    else do r ← pool_push p none; after_push r event_made correlation_id

-- What a waiter makes of an acknowledgment: whether it takes the payload, and its new state.
pub accept : Waiter → Incoming → Bool × Waiter
accept w ack =
    if not (w.correlation_id == ack.content.correlation_id) || w.cancelled
    then (false, w)
    else (true, record w { reply = some ack; received = true; event = true })

accept_at : Pool Waiter → Option ℕ → Incoming → Option (Bool × Pool Waiter)
accept_at p none ack = some (false, p)
accept_at p (some i) ack = do
  w ← get_elem? p.slots i
  slots ← store p.slots i (accept w ack).1
  some ((accept w ack).0, record p { slots = slots })

-- `true` means that the waiter now owns the payload; otherwise the receive loop frees it.
pub handle_ack_message : Pool Waiter → Incoming → Option (Bool × Pool Waiter)
unfolding accept_at
handle_ack_message p ack =
    if ack.content.correlation_id == 0
    then some (false, p)
    else do w ← pool_get p ack.content.correlation_slot; accept_at p w ack

-- The acknowledgments that the receive thread handles in turn, with what it is told of each.
unfoldable pub handle_acks : Pool Waiter → List Incoming → Option (List Bool × Pool Waiter)
handle_acks p [] = some ([], p)
handle_acks p (ack ∷ acks) = do
  (taken, q) ← handle_ack_message p ack
  (rest, r) ← handle_acks q acks
  some (taken ∷ rest, r)

-- `atomic_store(&waiter->cancelled, true)`, outside the lock.
pub cancel : Pool Waiter → ℕ → Option (Pool Waiter)
cancel p i = do
  w ← get_elem? p.slots i
  slots ← store p.slots i (record w { cancelled = true })
  some (record p { slots = slots })

-- The last critical section: the reply if one was received, and the slot given back.
pub collect : Pool Waiter → ℕ → Option (Option Incoming × Pool Waiter)
collect p i = do
  w ← get_elem? p.slots i
  q ← pool_pop p (pos i)
  some ((if w.received then w.reply else none), q)
