-- ===== src/Protocol/Ack/Slot.antt =====
-- The life of one slot: registration, cancellation and collection.
use mach_ipc.Base.{
  ℕ, ◌<◌, ◌≡◌, refl, Bool-cases, inl, inr, Bool, true, false, none, some, List, [], ◌∷◌, pos,
  minus_one, ◌==◌, if◌then◌else◌, arith, length, length-set, set, contains, get_or-set_self,
  get_elem?-eq-get_or, store-eq-some,
}
use mach_ipc.Pool.{Pool, pool_pop}
use mach_ipc.Pool.Inv.{Inv, taken, freed, head-lt, push_full, push_taken, taken-Inv, freed-Inv}
use mach_ipc.Pool.Active.{active, get_lem, pop_active}
use mach_ipc.Protocol.Ack.{Waiter, new_waiter, register_ack_waiter, cancel, collect}
use mach_ipc.Protocol.Ack.Deliver.{waiter, blank, with_slots, with_slots-Inv}

-- A slot that is taken while the others are free as listed.
pub record Held (p : Pool Waiter) (rest : List ℕ) (i : ℕ) : Type 0 where
  pub inv : Inv p rest
  pub below : i < p.capacity
  pub out : contains rest i ≡ false

pub Held-active :
    {p : Pool Waiter} {rest : List ℕ} {i : ℕ}
    → Held p rest i
    → active p.capacity rest (pos i) ≡ true
Held-active h = ground arith

pub Held-slots :
    {p : Pool Waiter} {rest : List ℕ} {i : ℕ} (slots : List Waiter)
    → Held p rest i
    → length slots ≡ length p.slots
    → Held (with_slots p slots) rest i
Held-slots slots h e = record { inv = with_slots-Inv slots h.inv e; below = h.below; out = h.out }

-- Giving the slot back restores the free list.
pub release-Held :
    {p : Pool Waiter} {rest : List ℕ} {i : ℕ}
    → Held p rest i
    → (pool_pop p (pos i) ≡ some (freed p i)) × Inv (freed p i) (i ∷ rest)
release-Held {p} {rest} {i} h =
    (pop_active i h.inv (Held-active h), freed-Inv i h.below h.out h.inv)

unfoldable pub cancelled_at : Pool Waiter → ℕ → Pool Waiter
cancelled_at p i = with_slots p (set p.slots i (record (waiter p i) { cancelled = true }))

pub cancel_lem :
    {p : Pool Waiter} {rest : List ℕ} {i : ℕ}
    → Held p rest i
    → (cancel p i ≡ some (cancelled_at p i))
      × Held (cancelled_at p i) rest i
      × (waiter (cancelled_at p i) i ≡ record (waiter p i) { cancelled = true })
unfolding cancel cancelled_at
cancel_lem {p} {rest} {i} h =
    let lt : i < length p.slots = omega (arith, h.inv.slots_size, h.below) in
    let w = record (waiter p i) { cancelled = true } in
    (
      rw (get_elem?-eq-get_or p.slots i blank lt, store-eq-some p.slots i w lt),
      Held-slots (set p.slots i w) h (length-set p.slots i w),
      get_or-set_self p.slots i w blank lt,
    )

pub collect_lem :
    {p : Pool Waiter} {rest : List ℕ} {i : ℕ}
    → Held p rest i
    → collect p i ≡ some (if (waiter p i).received then (waiter p i).reply else none, freed p i)
unfolding collect
collect_lem {p} {rest} {i} h =
    let lt : i < length p.slots = omega (arith, h.inv.slots_size, h.below) in
    rw (get_elem?-eq-get_or p.slots i blank lt, (release-Held h).0)

-- The pool after `register_ack_waiter` has taken slot `i`.
abbrev pub registered : Pool Waiter → ℕ → ℕ → Pool Waiter
registered p i cid = with_slots (taken p none i) (set p.slots i (new_waiter cid))

module _ {p : Pool Waiter} {i : ℕ} {rest : List ℕ} (v : Inv p (i ∷ rest)) where
  taken-Held : Held (taken p none i) rest i
  taken-Held = record { inv = taken-Inv none i v; below = head-lt i v; out = v.distinct.0 }

  pub registered-Held : (cid : ℕ) → Held (registered p i cid) rest i
  registered-Held cid =
      Held-slots (set p.slots i (new_waiter cid)) taken-Held (length-set p.slots i (new_waiter cid))

  pub waiter-registered : (cid : ℕ) → waiter (registered p i cid) i ≡ new_waiter cid
  waiter-registered cid =
      get_or-set_self p.slots i (new_waiter cid) blank (omega (arith, v.slots_size, head-lt i v))

  pub register_lem :
      (cid : ℕ)
      → (cid == 0) ≡ false
      → register_ack_waiter p true cid ≡ some (pos i, registered p i cid)
  unfolding register_ack_waiter
  register_lem cid n = rw (
    n,
    push_taken none i v,
    get_lem (pos i) taken-Held.inv,
    Held-active taken-Held,
    store-eq-some p.slots i (new_waiter cid) (omega (arith, v.slots_size, head-lt i v)),
  )

  -- Without an event the slot goes back at once.
  pub register_no_event_lem :
      (cid : ℕ)
      → (cid == 0) ≡ false
      → register_ack_waiter p false cid ≡ some (minus_one, freed (taken p none i) i)
  unfolding register_ack_waiter
  register_no_event_lem cid n = rw (
    n,
    push_taken none i v,
    get_lem (pos i) taken-Held.inv,
    Held-active taken-Held,
    (release-Held taken-Held).0,
  )

  pub returned-Inv : Inv (freed (taken p none i) i) (i ∷ rest)
  returned-Inv = (release-Held taken-Held).1

  pub register_no_event :
      (cid : ℕ)
      → (cid == 0) ≡ false
      → (q : Pool Waiter) × (register_ack_waiter p false cid ≡ some (minus_one, q))
        × Inv q (i ∷ rest)
  register_no_event cid n = (freed (taken p none i) i, register_no_event_lem cid n, returned-Inv)

pub register_full :
    {p : Pool Waiter} (event_made : Bool) (cid : ℕ)
    → Inv p []
    → register_ack_waiter p event_made cid ≡ some (minus_one, p)
unfolding register_ack_waiter
register_full {p} event_made cid v = ground (arith, push_full none v)

pub register_zero :
    (p : Pool Waiter) (event_made : Bool) (cid : ℕ)
    → (cid == 0) ≡ true
    → register_ack_waiter p event_made cid ≡ some (minus_one, p)
unfolding register_ack_waiter
register_zero p event_made cid z = rw z

-- What `register_ack_waiter` does: it takes the first free slot, or it fails and the pool is as good as
-- before.
pub data Registering (p : Pool Waiter) (free : List ℕ) (event_made : Bool) (cid : ℕ) : Type 0 where
  made :
      (i : ℕ) (rest : List ℕ)
      → free ≡ i ∷ rest
      → register_ack_waiter p event_made cid ≡ some (pos i, registered p i cid)
      → Registering p free event_made cid
  failed :
      (q : Pool Waiter)
      → register_ack_waiter p event_made cid ≡ some (minus_one, q)
      → Inv q free
      → q.slots ≡ p.slots
      → q.capacity ≡ p.capacity
      → Registering p free event_made cid

nonzero-Registering :
    {p : Pool Waiter} (free : List ℕ) (event_made : Bool) (cid : ℕ)
    → Inv p free
    → (cid == 0) ≡ false
    → Registering p free event_made cid
nonzero-Registering {p} [] event_made cid v n =
    failed p (register_full event_made cid v) v refl refl
nonzero-Registering {p} (i ∷ rest) true cid v n = made i rest refl (register_lem v cid n)
nonzero-Registering {p} (i ∷ rest) false cid v n =
    failed (freed (taken p none i) i) (register_no_event_lem v cid n) (returned-Inv v) refl refl

pub registering :
    {p : Pool Waiter} {free : List ℕ} (event_made : Bool) (cid : ℕ)
    → Inv p free
    → Registering p free event_made cid
registering {p} {free} event_made cid v = elim (Bool-cases (cid == 0)) [
  | inl z ↦ failed p (register_zero p event_made cid z) v refl refl
  | inr n ↦ nonzero-Registering free event_made cid v n
]
