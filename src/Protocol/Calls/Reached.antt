-- ===== src/Protocol/Calls/Reached.antt =====
-- The states that steps in any order lead to from a fresh pool.
use mach_ipc.Base.{
  ℕ, suc, ◌^◌, ◌<◌, ◌≡◌, Bool, false, Option, some, List, ℤ, pos, not, ltb, contains, arith, length,
  get_elem?, get_elem?-eq-get_or, ◌&&◌,
}
use mach_ipc.Pool.{Pool, pool_pop}
use mach_ipc.Pool.Inv.{Inv}
use mach_ipc.Pool.Init.{fresh, fresh-Inv, count_up, contains-count_up}
use mach_ipc.Protocol.Ack.{
  Incoming, Waiter, register_ack_waiter, handle_ack_message, cancel, collect,
}
use mach_ipc.Protocol.Ack.Deliver.{blank}
use mach_ipc.Protocol.Ack.Slot.{release-Held, cancel_lem, collect_lem, made, failed, registering}
use mach_ipc.Protocol.Ack.Owner.{refused, taken, handle_ack_message_owner}
use mach_ipc.Protocol.WithAck.{Shared}
use mach_ipc.Protocol.Calls.{
  System, sending, waiting, expired, closing, Phase, idle, numbered, inside, refused, finished,
  Reach, start, later,
}
use mach_ipc.Protocol.Calls.Phases.{IsFresh, CallsInv}
use mach_ipc.Protocol.Calls.Steps.{Step-CallsInv}

-- No thread is in a call yet.
abbrev pub at_rest : Shared → System
at_rest s = record { shared = s; phase = λ _. idle }

-- An endpoint as it starts: `pool_init` has made the pool.
abbrev pub initial : (last : ℕ) → List Waiter → List ℤ → (next_correlation_id : ℕ) → System
initial last slots next cid =
    at_rest (record { ack_pool = fresh last slots next; next_correlation_id = cid })

all_free : (last i : ℕ) → (ltb i (suc last) && not (contains (count_up 0 (suc last)) i)) ≡ false
all_free last i = ground (arith, contains-count_up 0 (suc last) i)

initial-CallsInv :
    (last : ℕ) (slots : List Waiter) (next : List ℤ) (cid : ℕ)
    → length slots ≡ suc last
    → length next ≡ suc last
    → cid < 2 ^ 64
    → CallsInv (initial last slots next cid).shared (λ _. idle) (count_up 0 (suc last))
initial-CallsInv last slots next cid hs hn small = record {
  pool = fresh-Inv last slots next hs hn;
  small = small;
  fresh = λ t. tt;
  unique = λ t u i e. absurd cc;
  owned = λ i a. absurd (ground (arith, all_free last i));
}

-- In every state that any number of calls and acknowledgments lead to from a fresh pool, in any order:
-- the pool is well formed; each call inside has its own slot, which is not free and has a waiter with
-- its correlation id, uncancelled until its own wait has run out; any reply there, or returned
-- with, is an acknowledgment with the id and the slot of that call; no two calls have the same slot;
-- and each slot in use belongs to a call, so that none is lost.
pub Reach-CallsInv :
    (last : ℕ) (slots : List Waiter) (next : List ℤ) (cid : ℕ)
    → length slots ≡ suc last
    → length next ≡ suc last
    → cid < 2 ^ 64
    → {s : System} → Reach (initial last slots next cid) s
    → (free : List ℕ) × CallsInv s.shared s.phase free
Reach-CallsInv last slots next cid hs hn small start =
    (count_up 0 (suc last), initial-CallsInv last slots next cid hs hn small)
Reach-CallsInv last slots next cid hs hn small (later r st) =
    Step-CallsInv st (Reach-CallsInv last slots next cid hs hn small r).1

-- The operation that a call in this phase is about to do does not fault.
abbrev pub Runs : Pool Waiter → Phase → Type 0
Runs p (numbered timeout_ms cid) =
    (event_made : Bool) → (r : ℤ × Pool Waiter) × (register_ack_waiter p event_made cid ≡ some r)
Runs p (inside (sending timeout_ms) slot cid) = (q : Pool Waiter) × (pool_pop p (pos slot) ≡ some q)
Runs p (inside (waiting timeout_ms) slot cid) = (w : Waiter) × (get_elem? p.slots slot ≡ some w)
Runs p (inside expired slot cid) = (q : Pool Waiter) × (cancel p slot ≡ some q)
Runs p (inside closing slot cid) = (r : Option Incoming × Pool Waiter) × (collect p slot ≡ some r)
Runs p _ = Unit

module _ {p : Pool Waiter} {free : List ℕ} (v : Inv p free) where
  register-runs :
      (event_made : Bool) (cid : ℕ)
      → (r : ℤ × Pool Waiter) × (register_ack_waiter p event_made cid ≡ some r)
  register-runs event_made cid = elim (registering event_made cid v) [
    | made i rest e done ↦ (_, done)
    | failed q done w slots capacity ↦ (_, done)
  ]

  IsFresh-Runs : (ph : Phase) → IsFresh p free ph → Runs p ph
  IsFresh-Runs idle f = tt
  IsFresh-Runs (numbered timeout_ms cid) f = λ event_made. register-runs event_made cid
  IsFresh-Runs (inside (sending timeout_ms) slot cid) f = (_, (release-Held f.0).0)
  IsFresh-Runs (inside (waiting timeout_ms) slot cid) f =
      (_, get_elem?-eq-get_or p.slots slot blank (omega (arith, v.slots_size, f.0.below)))
  IsFresh-Runs (inside expired slot cid) f = (_, (cancel_lem f.0).0)
  IsFresh-Runs (inside closing slot cid) f = (_, collect_lem f.0)
  IsFresh-Runs (refused k) f = tt
  IsFresh-Runs (finished slot cid reply) f = tt

  ack-runs : (ack : Incoming) → (r : Bool × Pool Waiter) × (handle_ack_message p ack ≡ some r)
  ack-runs ack = elim (handle_ack_message_owner ack v) [
    | refused done ↦ (_, done)
    | taken i a m c done ↦ (_, done)
  ]

-- In every state that calls and acknowledgments lead to from a fresh pool, no critical section faults:
-- whichever call goes on next, its access to the pool is in bounds, and so is that of the receive
-- thread for whatever acknowledgment arrives.
pub Reach-Runs :
    (last : ℕ) (slots : List Waiter) (next : List ℤ) (cid : ℕ)
    → length slots ≡ suc last
    → length next ≡ suc last
    → cid < 2 ^ 64
    → {s : System} → Reach (initial last slots next cid) s
    → ((t : ℕ) → Runs s.shared.ack_pool (s.phase t))
      × ((ack : Incoming)
          → (r : Bool × Pool Waiter) × (handle_ack_message s.shared.ack_pool ack ≡ some r))
Reach-Runs last slots next cid hs hn small {s} r =
    let (free, v) = Reach-CallsInv last slots next cid hs hn small r in
    (λ t. IsFresh-Runs v.pool (s.phase t) (v.fresh t), ack-runs v.pool)
