-- ===== src/Protocol/Calls/Frame.antt =====
-- The slots of the other calls under a change of the pool.
use mach_ipc.Base.{
  ℕ, ◌≡◌, ◌≢◌, refl, subst, sym, true, none, some, List, set, get_or-set_self, get_or-set_ne,
  length-set, arith, Bool-cases, inl, inr, ◌==◌,
}
use mathlib.Core.Option.{some-injective}
use native.Mathlib.Decide.{ℕ_discrete}
use mach_ipc.Pool.{Pool}
use mach_ipc.Protocol.Ack.{Incoming, Waiter}
use mach_ipc.Protocol.Ack.Waiters.{matches, with_reply}
use mach_ipc.Protocol.Ack.Deliver.{waiter, blank, with_slots}
use mach_ipc.Protocol.Ack.Slot.{Held, Held-slots}
use mach_ipc.Protocol.Calls.{update, Stage, Phase, idle, numbered, inside, refused, finished}
use mach_ipc.Protocol.Calls.Phases.{Known, IsFresh, slot_held}

-- Slot `i` is still taken, and its waiter is as good as before.
pub record Frame (p : Pool Waiter) (free : List ℕ) (q : Pool Waiter) (free' : List ℕ) (i : ℕ)
    : Type 0 where
  pub held : Held q free' i
  pub known :
      (stage : Stage) (cid : ℕ) → Known stage i cid (waiter p i) → Known stage i cid (waiter q i)

pub Frame-same :
    {p : Pool Waiter} {free : List ℕ} {q : Pool Waiter} {free' : List ℕ} {i : ℕ}
    → Held q free' i
    → waiter q i ≡ waiter p i
    → Frame p free q free' i
Frame-same {i} h e = record { held = h; known = λ stage cid. subst (Known stage i cid) (sym e) }

pub Frame-IsFresh :
    {p : Pool Waiter} {free : List ℕ} {q : Pool Waiter} {free' : List ℕ} (ph : Phase)
    → ((i : ℕ) → slot_held ph ≡ some i → Held p free i → Frame p free q free' i)
    → IsFresh p free ph
    → IsFresh q free' ph
Frame-IsFresh idle f h = tt
Frame-IsFresh (numbered timeout_ms cid) f h = tt
Frame-IsFresh (inside stage i cid) f (held, known) =
    let fr = f i refl held in (fr.held, fr.known stage cid known)
Frame-IsFresh (refused k) f h = tt
Frame-IsFresh (finished i cid none) f h = tt
Frame-IsFresh (finished i cid (some r)) f h = h

pub Known-with_reply :
    (stage : Stage) (i cid : ℕ) (w : Waiter) (ack : Incoming)
    → matches w.correlation_id i ack ≡ true
    → Known stage i cid w
    → Known stage i cid (with_reply w (some ack))
Known-with_reply stage i cid w ack m k = record {
  numbered_so = k.numbered_so;
  genuine = λ r e.
      subst (λ (a : Incoming). matches cid i a ≡ true) (some-injective ack r e)
        (subst (λ (c : ℕ). matches c i ack ≡ true) k.numbered_so m);
  open_until = k.open_until;
}

pub update-cases :
    (P : Phase → Type 0) (phase : ℕ → Phase) (t u : ℕ) {ph : Phase}
    → P ph
    → (t ≢ u → P (phase u))
    → P (update phase t ph u)
update-cases P phase t u {ph} same different = elim (Bool-cases (t == u)) [
  | inl here ↦ rw here same
  | inr apart ↦ rw apart (different (ground arith))
]

pub fresh-Held :
    {p : Pool Waiter} {free : List ℕ} (ph : Phase) (i : ℕ)
    → slot_held ph ≡ some i
    → IsFresh p free ph
    → Held p free i
fresh-Held {p} {free} (inside stage slot cid) i e f =
    subst (Held p free) (some-injective slot i e) f.0
fresh-Held ph i e f = cc

-- A waiter takes an acknowledgment for its call.
pub Frame-ack :
    {p : Pool Waiter} {free : List ℕ} (i j : ℕ) (ack : Incoming)
    → matches (waiter p i).correlation_id i ack ≡ true
    → Held p free j
    → Frame p free (with_slots p (set p.slots i (with_reply (waiter p i) (some ack)))) free j
Frame-ack {p} {free} i j ack m h = elim (ℕ_discrete i j) [
  | yes same ↦
      subst (Frame p free (with_slots p slots) free) same (at_i (subst (Held p free) (sym same) h))
  | no ne ↦
      Frame-same (still j h)
        (get_or-set_ne p.slots i j (with_reply (waiter p i) (some ack)) blank ne)
]
  where
    slots : List Waiter
    slots = set p.slots i (with_reply (waiter p i) (some ack))

    still : (j : ℕ) → Held p free j → Held (with_slots p slots) free j
    still j h = Held-slots slots h (length-set p.slots i _)

    at_i : Held p free i → Frame p free (with_slots p slots) free i
    at_i h = record {
      held = still i h;
      known = λ stage cid k.
          subst (Known stage i cid)
            (sym (
              get_or-set_self p.slots i (with_reply (waiter p i) (some ack)) blank
                (omega (arith, h.inv.slots_size, h.below))))
            (Known-with_reply stage i cid (waiter p i) ack m k);
    }
