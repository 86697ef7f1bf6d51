-- ===== src/Protocol/Ack/Deliver.antt =====
-- `handle_ack_message` on the whole pool: it never faults, moves no slot in or out of the free list,
-- and does to each waiter what that waiter does.
use mach_ipc.Base.{
  ℕ, ◌<◌, ◌≡◌, refl, ap, Bool, true, false, not, ◌&&◌, Option, none, some, List, [], ◌∷◌, ℤ, pos,
  negsuc, eq_ℤ, ◌==◌, arith, length, length-set, get_or, get_or-set_self, get_or-set_ne, ==_refl,
  set, Bool-cases, inl, inr, ◌∙◌, get_elem?-eq-get_or, store-eq-some,
}
use native.Mathlib.Decide.{ℕ_discrete}
use mach_ipc.Pool.{Pool, pool_get, index_of}
use mach_ipc.Pool.Inv.{Inv}
use mach_ipc.Pool.Active.{active, get_lem}
use mach_ipc.Protocol.Ack.{
  Incoming, Waiter, new_waiter, accept, accept_at, handle_ack_message, handle_acks,
}
use mach_ipc.Protocol.Ack.Waiters.{addresses, deliver_all}

abbrev pub blank : Waiter
blank = new_waiter 0

-- The waiter in a slot.
abbrev pub waiter : Pool Waiter → ℕ → Waiter
waiter p i = get_or p.slots i blank

abbrev pub with_slots : Pool Waiter → List Waiter → Pool Waiter
with_slots p slots = record p { slots = slots }

pub with_slots-Inv :
    {p : Pool Waiter} {free : List ℕ} (slots : List Waiter)
    → Inv p free
    → length slots ≡ length p.slots
    → Inv (with_slots p slots) free
with_slots-Inv slots v e = record {
  slots_size = e ∙ v.slots_size;
  next_size = v.next_size;
  used_size = v.used_size;
  chain = v.chain;
  distinct = v.distinct;
  unused = v.unused;
}

-- A step of the receive thread, seen from the slots in use.
pub record Handled (p : Pool Waiter) (free : List ℕ) (acks : List Incoming) {B : Type 0}
    (result : Option (B × Pool Waiter)) : Type 0 where
  pub taken : B
  pub slots : List Waiter
  pub returns : result ≡ some (taken, with_slots p slots)
  pub same_length : length slots ≡ length p.slots
  pub delivered :
      (i : ℕ)
      → active p.capacity free (pos i) ≡ true
      → get_or slots i blank ≡ deliver_all i (waiter p i) acks

-- No acknowledgment is for two slots.
one_slot :
    (b : Bool) (slot : ℤ) (j i : ℕ)
    → (b && eq_ℤ slot (pos j)) ≡ true
    → (b && eq_ℤ slot (pos i)) ≡ (j == i)
one_slot b (pos k) j i h = ground arith
one_slot b (negsuc k) j i h = ground arith

addresses_one : (ack : Incoming) (j i : ℕ) → addresses ack j ≡ true → addresses ack i ≡ (j == i)
addresses_one ack = one_slot (not (ack.content.correlation_id == 0)) ack.content.correlation_slot

module _ {p : Pool Waiter} {free : List ℕ} (v : Inv p free) (ack : Incoming) where
  in_range : (j : ℕ) → active p.capacity free (pos j) ≡ true → j < length p.slots
  in_range j a = ground arith

  found_slot :
      (slot : ℤ)
      → ack.content.correlation_slot ≡ slot
      → active p.capacity free slot ≡ true
      → pool_get p ack.content.correlation_slot ≡ some (index_of slot)
  found_slot slot here a = ap (pool_get p) here ∙ (get_lem slot v ∙ rw a)

  no_slot :
      (slot : ℤ)
      → ack.content.correlation_slot ≡ slot
      → active p.capacity free slot ≡ false
      → pool_get p ack.content.correlation_slot ≡ some none
  no_slot slot here a = ap (pool_get p) here ∙ (get_lem slot v ∙ rw a)

  other_slot :
      (slot : ℤ) (i : ℕ)
      → active p.capacity free slot ≡ false
      → active p.capacity free (pos i) ≡ true
      → eq_ℤ slot (pos i) ≡ false
  other_slot (negsuc n) i a b = refl
  other_slot (pos j) i a b = elim (ℕ_discrete j i) [
    | yes e ↦ ground (arith, ap (λ (k : ℕ). active p.capacity free (pos k)) e)
    | no ne ↦ ground arith
  ]

  accept_at_lem :
      (j : ℕ)
      → j < length p.slots
      → accept_at p (some j) ack
        ≡ some
            ((accept (waiter p j) ack).0, with_slots p (set p.slots j (accept (waiter p j) ack).1))
  unfolding accept_at
  accept_at_lem j h =
      rw (
        get_elem?-eq-get_or p.slots j blank h,
        store-eq-some p.slots j (accept (waiter p j) ack).1 h,
      )

  -- Whom an acknowledgment reaches: nobody, or the waiter of a slot in use.
  pub data Target : Type 0 where
    nobody :
        ((i : ℕ) → active p.capacity free (pos i) ≡ true → addresses ack i ≡ false)
        → handle_ack_message p ack ≡ some (false, p)
        → Target
    reaches :
        (j : ℕ)
        → active p.capacity free (pos j) ≡ true
        → addresses ack j ≡ true
        → handle_ack_message p ack
          ≡ some (
            (accept (waiter p j) ack).0,
            with_slots p (set p.slots j (accept (waiter p j) ack).1),
          )
        → Target

  by_slot :
      (slot : ℤ)
      → ack.content.correlation_slot ≡ slot
      → (ack.content.correlation_id == 0) ≡ false
      → (a : Bool) → active p.capacity free slot ≡ a
      → Target
  unfolding handle_ack_message accept_at
  by_slot (pos j) here nonzero true a =
      reaches j a (ground (arith, ap (λ (z : ℤ). eq_ℤ z (pos j)) here, ==_refl j))
        (rw (nonzero, found_slot (pos j) here a) (accept_at_lem j (in_range j a)))
  by_slot (negsuc n) here nonzero true a = cc
  by_slot slot here nonzero false a =
      nobody (λ i b. ground (arith, ap (λ (z : ℤ). eq_ℤ z (pos i)) here, other_slot slot i a b))
        (rw (nonzero, no_slot slot here a))

  pub target : Target
  target = elim (Bool-cases (ack.content.correlation_id == 0)) [
    | inl z ↦ nobody (λ i b. ground arith) (unfold handle_ack_message in rw z)
    | inr n ↦ by_slot ack.content.correlation_slot refl n _ refl
  ]

  target-Handled : Target → Handled p free (ack ∷ []) (handle_ack_message p ack)
  unfolding deliver_all
  target-Handled (nobody other e) = record {
    taken = false;
    slots = p.slots;
    returns = e;
    same_length = refl;
    delivered = λ i a. ground (arith, other i a);
  }
  target-Handled (reaches j a to_j e) = record {
    taken = (accept (waiter p j) ack).0;
    slots = set p.slots j (accept (waiter p j) ack).1;
    returns = e;
    same_length = length-set p.slots j (accept (waiter p j) ack).1;
    delivered = λ i b. ground (
      arith,
      in_range j a,
      addresses_one ack j i to_j,
      get_or-set_self p.slots j (accept (waiter p j) ack).1 blank,
      get_or-set_ne p.slots j i (accept (waiter p j) ack).1 blank,
    );
  }

  -- One acknowledgment.
  handled : Handled p free (ack ∷ []) (handle_ack_message p ack)
  handled = target-Handled target

-- Any sequence of acknowledgments.
pub all-Handled :
    (acks : List Incoming) {p : Pool Waiter} {free : List ℕ}
    → Inv p free
    → Handled p free acks (handle_acks p acks)
unfolding handle_acks deliver_all
all-Handled [] {p} v = record {
  taken = [];
  slots = p.slots;
  returns = refl;
  same_length = refl;
  delivered = λ i a. refl;
}
all-Handled (ack ∷ acks) v =
    let h = handled v ack in
    let hs = all-Handled acks (with_slots-Inv h.slots v h.same_length) in
    record {
      taken = h.taken ∷ hs.taken;
      slots = hs.slots;
      returns = rw (h.returns, hs.returns);
      same_length = hs.same_length ∙ h.same_length;
      delivered =
          λ i a. hs.delivered i a ∙ ap (λ (w : Waiter). deliver_all i w acks) (h.delivered i a);
    }
