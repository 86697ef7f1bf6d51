-- ===== src/Protocol/Calls/Registers.antt =====
-- The moves that register a waiter.
use mathlib.Core.Option.{some-injective}
use mach_ipc.Base.{
  ℕ, ◌≡◌, refl, subst, sym, ap, Bool, true, none, some, List, pos, contains, get_or, get_or-set_ne,
  arith, ◌∙◌, ◌∷◌, inl, inr, negsuc,
}
use native.Mathlib.Decide.{ℕ_discrete}
use mach_ipc.Pool.{Pool}
use mach_ipc.Pool.Inv.{Inv}
use mach_ipc.Pool.Active.{active}
use mach_ipc.Protocol.Ack.{Waiter, new_waiter, register_ack_waiter}
use mach_ipc.Protocol.Ack.Deliver.{blank}
use mach_ipc.Protocol.Ack.Slot.{
  registered, made, failed, registering, registered-Held, waiter-registered,
}
use mach_ipc.Protocol.WithAck.{Shared}
use mach_ipc.Protocol.Calls.{sending, Phase, numbered, inside, with_pool}
use mach_ipc.Protocol.Calls.Phases.{Known, IsFresh, slot_held, CallsInv}
use mach_ipc.Protocol.Calls.Moves.{Moved}
use mach_ipc.Protocol.Calls.Frame.{Frame-same}

module _ {s : Shared} {phase : ℕ → Phase} {free : List ℕ} (v : CallsInv s phase free) (t : ℕ) where
  -- A free slot is taken.
  takes :
      {timeout_ms cid : ℕ} (i : ℕ) (rest : List ℕ)
      → slot_held (phase t) ≡ none
      → free ≡ i ∷ rest
      → Moved v t
          (numbered timeout_ms cid)
          (with_pool s (registered s.ack_pool i cid))
          (inside (sending timeout_ms) i cid)
  takes {timeout_ms} {cid} i rest none_yet e =
      let w = subst (Inv s.ack_pool) e v.pool in
      let held = registered-Held w cid in
      record {
        free' = rest;
        pool = held.inv;
        small = v.small;
        own = (
          held,
          subst (Known (sending timeout_ms) i cid) (sym (waiter-registered w cid))
              (record { numbered_so = refl; genuine = λ r x. cc; open_until = refl }),
        );
        others = λ u ne j x h.
            Frame-same
              (record {
                inv = held.inv;
                below = h.below;
                out = ground (arith, h.out, ap (λ xs. contains xs j) e);
              })
              (get_or-set_ne s.ack_pool.slots i j (new_waiter cid) blank
                (λ same. ground (arith, h.out, ap (λ xs. contains xs j) e)));
        new_slot = λ j x. inr (ground (arith, ap (λ xs. contains xs j) e));
        owned = λ j a. elim (ℕ_discrete i j) [
          | yes same ↦ inl (ap some same)
          | no ne ↦ inr (ground (arith, ap (λ xs. contains xs j) e), λ x. absurd cc)
        ];
      }

  -- No slot could be had.
  stays_out :
      {ph ph' : Phase} {q : Pool Waiter}
      → Inv q free
      → q.slots ≡ s.ack_pool.slots
      → q.capacity ≡ s.ack_pool.capacity
      → slot_held ph ≡ none
      → slot_held ph' ≡ none
      → IsFresh q free ph'
      → Moved v t ph (with_pool s q) ph'
  stays_out {ph} {ph'} {q} w slots capacity none_yet none_now own = record {
    free' = free;
    pool = w;
    small = v.small;
    own = own;
    others = λ u ne i x h.
        Frame-same (record { inv = w; below = omega (arith, h.below, capacity); out = h.out })
          (ap (λ xs. get_or xs i blank) slots);
    new_slot = λ i x. absurd cc;
    owned = λ i a. inr (subst (λ (n : ℕ). active n free (pos i) ≡ true) capacity a, λ x. absurd cc);
  }

  pub registers :
      {timeout_ms cid slot : ℕ} {q : Pool Waiter} (event_made : Bool)
      → phase t ≡ numbered timeout_ms cid
      → register_ack_waiter s.ack_pool event_made cid ≡ some (pos slot, q)
      → Moved v t (numbered timeout_ms cid) (with_pool s q) (inside (sending timeout_ms) slot cid)
  registers {timeout_ms} {cid} {slot} {q} event_made here e =
      elim (registering event_made cid v.pool) [
        | made i rest f done ↦
            let both = some-injective _ _ (sym done ∙ e) in
            let first : i ≡ slot = cc in
            subst
              (λ r.
                Moved v t (numbered timeout_ms cid) (with_pool s r)
                  (inside (sending timeout_ms) slot cid))
              (ap (λ x. x.1) both)
              (subst
                (λ k.
                  Moved v t (numbered timeout_ms cid) (with_pool s (registered s.ack_pool i cid))
                    (inside (sending timeout_ms) k cid))
                first (takes i rest (ap slot_held here) f))
        | failed r done w slots capacity ↦ absurd cc
      ]

  pub fails_to_register :
      {timeout_ms cid n : ℕ} {q : Pool Waiter} (event_made : Bool) (ph : Phase)
      → register_ack_waiter s.ack_pool event_made cid ≡ some (negsuc n, q)
      → slot_held ph ≡ none
      → IsFresh q free ph
      → Moved v t (numbered timeout_ms cid) (with_pool s q) ph
  fails_to_register {timeout_ms} {cid} {n} {q} event_made ph e none_now own =
      elim (registering event_made cid v.pool) [
        | made i rest f done ↦ absurd cc
        | failed r done w slots capacity ↦
            let same = ap (λ x. x.1) (some-injective _ _ (sym done ∙ e)) in
            stays_out (subst (λ r. Inv r free) same w)
              (subst (λ (r : Pool Waiter). r.slots ≡ s.ack_pool.slots) same slots)
              (subst (λ (r : Pool Waiter). r.capacity ≡ s.ack_pool.capacity) same capacity) refl
              none_now own
      ]
