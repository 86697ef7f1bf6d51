-- ===== src/Protocol/Ack/Owner.antt =====
-- Who owns an acknowledgment after `handle_ack_message`.
use mach_ipc.Base.{
  ℕ, ◌≡◌, ap, ◌∙◌, ◌⊎◌, inl, inr, Bool, true, false, Option, some, List, pos, set, set-get_or,
  arith,
}
use mach_ipc.Pool.{Pool}
use mach_ipc.Pool.Inv.{Inv}
use mach_ipc.Pool.Active.{active}
use mach_ipc.Protocol.Ack.{Incoming, Waiter, accept, handle_ack_message}
use mach_ipc.Protocol.Ack.Waiters.{addresses, matches, with_reply}
use mach_ipc.Protocol.Ack.Deliver.{waiter, blank, with_slots, Target, nobody, reaches, target}

-- Either the acknowledgment is refused and nothing changes, or the waiter in the slot that it names,
-- which is in use, has its id and is not cancelled, holds it now and is woken.
pub data Owned (p : Pool Waiter) (free : List ℕ) (ack : Incoming) : Type 0 where
  refused : handle_ack_message p ack ≡ some (false, p) → Owned p free ack
  taken :
      (i : ℕ)
      → active p.capacity free (pos i) ≡ true
      → matches (waiter p i).correlation_id i ack ≡ true
      → (waiter p i).cancelled ≡ false
      → handle_ack_message p ack
        ≡ some (true, with_slots p (set p.slots i (with_reply (waiter p i) (some ack))))
      → Owned p free ack

accepted_or_not :
    (w : Waiter) (i : ℕ) (ack : Incoming)
    → addresses ack i ≡ true
    → (accept w ack ≡ (false, w))
      ⊎ ((matches w.correlation_id i ack ≡ true)
          × (w.cancelled ≡ false)
          × (accept w ack ≡ (true, with_reply w (some ack))))
unfolding accept
accepted_or_not w i ack h = ground arith

owned_target :
    {p : Pool Waiter} {free : List ℕ} (v : Inv p free) (ack : Incoming)
    → Target v ack
    → Owned p free ack
owned_target v ack (nobody other e) = refused e
owned_target {p} v ack (reaches j a to_j e) = elim (accepted_or_not (waiter p j) j ack to_j) [
  | inl no_match ↦ refused (e ∙ (ap (outcome_at p j) no_match ∙ unchanged p j))
  | inr (m, c, yes_match) ↦ taken j a m c (e ∙ ap (outcome_at p j) yes_match)
]
  where
    outcome_at : Pool Waiter → ℕ → Bool × Waiter → Option (Bool × Pool Waiter)
    outcome_at p j r = some (r.0, with_slots p (set p.slots j r.1))

    unchanged : (p : Pool Waiter) (j : ℕ) → outcome_at p j (false, waiter p j) ≡ some (false, p)
    unchanged p j =
        ap (λ (xs : List Waiter). some (false, with_slots p xs)) (set-get_or p.slots j blank)

-- On a valid pool `handle_ack_message` never faults. It refuses the acknowledgment and changes
-- nothing, or the waiter of an active slot takes it: that of the slot which the acknowledgment names,
-- with its correlation id, and not cancelled. No other slot changes, and the free list stays.
pub handle_ack_message_owner :
    {p : Pool Waiter} {free : List ℕ} (ack : Incoming) → Inv p free → Owned p free ack
handle_ack_message_owner ack v = owned_target v ack (target v ack)
