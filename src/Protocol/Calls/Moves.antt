-- ===== src/Protocol/Calls/Moves.antt =====
-- The moves of one call, and what `CallsInv` asks of them.
use mathlib.Core.Option.{some-injective}
use mach_ipc.Base.{
  ℕ, ◌^◌, ◌<◌, ◌≡◌, ◌≢◌, refl, subst, sym, ap, true, false, none, some, List, pos, contains,
  get_or-set_ne, arith, ◌∙◌, ◌∷◌, ◌⊎◌, inl, inr,
}
use mach_ipc.Pool.{Pool, pool_pop}
use mach_ipc.Pool.Inv.{Inv}
use mach_ipc.Pool.Active.{active}
use mach_ipc.Protocol.Ack.{Waiter, cancel}
use mach_ipc.Protocol.Ack.Deliver.{waiter, blank}
use mach_ipc.Protocol.Ack.Slot.{Held, release-Held, cancelled_at, cancel_lem}
use mach_ipc.Protocol.WithAck.{Shared}
use mach_ipc.Protocol.Calls.{expired, closing, Phase, inside, with_pool, update}
use mach_ipc.Protocol.Calls.Phases.{Known, IsFresh, slot_held, CallsInv}
use mach_ipc.Protocol.Calls.Frame.{update-cases, fresh-Held, Frame, Frame-same, Frame-IsFresh}

module _ {s : Shared} {phase : ℕ → Phase} {free : List ℕ} (v : CallsInv s phase free) (t : ℕ) where
  -- What the call in phase `ph`, `phase t`, has to show of its move to `ph'`.
  pub record Moved (ph : Phase) (after : Shared) (ph' : Phase) : Type 0 where
    pub free' : List ℕ
    pub pool : Inv after.ack_pool free'
    pub small : after.next_correlation_id < 2 ^ 64
    pub own : IsFresh after.ack_pool free' ph'
    pub others :
        (u : ℕ)
        → t ≢ u
        → (i : ℕ) → slot_held (phase u) ≡ some i
        → Held s.ack_pool free i
        → Frame s.ack_pool free after.ack_pool free' i
    -- A new slot was free.
    pub new_slot :
        (i : ℕ) → slot_held ph' ≡ some i → (slot_held ph ≡ some i) ⊎ (contains free i ≡ true)
    pub owned :
        (i : ℕ)
        → active after.ack_pool.capacity free' (pos i) ≡ true
        → (slot_held ph' ≡ some i)
          ⊎ ((active s.ack_pool.capacity free (pos i) ≡ true)
              × (slot_held ph ≡ some i → slot_held ph' ≡ some i))

  owner_out : (u i : ℕ) → slot_held (phase u) ≡ some i → contains free i ≡ false
  owner_out u i e = (fresh-Held (phase u) i e (v.fresh u)).out

  pub Moved-CallsInv :
      {after : Shared} {ph' : Phase}
      → Moved (phase t) after ph'
      → (free' : List ℕ) × CallsInv after (update phase t ph') free'
  Moved-CallsInv {after} {ph'} m = (
    m.free',
    record {
      pool = m.pool;
      small = m.small;
      fresh = λ u.
          update-cases (IsFresh after.ack_pool m.free') phase t u m.own
            (λ ne. Frame-IsFresh (phase u) (m.others u ne) (v.fresh u));
      unique = λ a b i x y. ground (
        arith,
        m.new_slot i,
        v.unique a b i,
        v.unique t b i,
        v.unique a t i,
        owner_out a i,
        owner_out b i,
      );
      owned = λ i a. elim (m.owned i a) [
        | inl e ↦ (t, ground arith)
        | inr (b, ne) ↦ let (u, e) = v.owned i b in (u, ground arith)
      ];
    },
  )

  -- Nothing but the phase changes, and perhaps the next correlation id.
  pub on_its_own :
      {ph ph' : Phase} (after : Shared)
      → after.ack_pool ≡ s.ack_pool
      → after.next_correlation_id < 2 ^ 64
      → IsFresh after.ack_pool free ph'
      → slot_held ph' ≡ slot_held ph
      → Moved ph after ph'
  on_its_own {ph} {ph'} after same small own keep = record {
    free' = free;
    pool = subst (λ (q : Pool Waiter). Inv q free) (sym same) v.pool;
    small = small;
    own = own;
    others = λ u ne i e h.
        Frame-same (subst (λ (q : Pool Waiter). Held q free i) (sym same) h)
          (ap (λ (q : Pool Waiter). waiter q i) same);
    new_slot = λ i e. inl (sym keep ∙ e);
    owned = λ i a.
        inr (
          subst (λ (q : Pool Waiter). active q.capacity free (pos i) ≡ true) same a,
          λ x. keep ∙ x,
        );
  }

  -- The slot is given back.
  pub gives_back :
      {ph ph' : Phase} (slot : ℕ) {q : Pool Waiter}
      → phase t ≡ ph
      → slot_held ph ≡ some slot
      → IsFresh s.ack_pool free ph
      → pool_pop s.ack_pool (pos slot) ≡ some q
      → ((free' : List ℕ) → IsFresh q free' ph')
      → slot_held ph' ≡ none
      → Moved ph (with_pool s q) ph'
  gives_back {ph} {ph'} slot {q} here has f e own gone =
      let held = fresh-Held ph slot has f in
      let released = release-Held held in
      let same = some-injective _ _ (sym released.0 ∙ e) in
      subst (λ (r : Pool Waiter). Moved ph (with_pool s r) ph') same
        (record {
          free' = slot ∷ free;
          pool = released.1;
          small = v.small;
          own =
              subst (λ (r : Pool Waiter). IsFresh r (slot ∷ free) ph') (sym same)
                (own (slot ∷ free));
          others = λ u ne i x h.
              Frame-same
                (record {
                  inv = released.1;
                  below = h.below;
                  out = ground (arith, h.out, v.unique t u i);
                })
                refl;
          new_slot = λ i x. cc;
          owned = λ i a. inr (ground arith, λ x. absurd (ground arith));
        })

  -- The waiter of the call is cancelled.
  pub cancels :
      {slot cid : ℕ} {q : Pool Waiter}
      → phase t ≡ inside expired slot cid
      → IsFresh s.ack_pool free (inside expired slot cid)
      → cancel s.ack_pool slot ≡ some q
      → Moved (inside expired slot cid) (with_pool s q) (inside closing slot cid)
  unfolding cancelled_at
  cancels {slot} {cid} {q} here f e =
      let (done, held, now) = cancel_lem f.0 in
      let same = some-injective _ _ (sym done ∙ e) in
      subst
        (λ (r : Pool Waiter).
          Moved (inside expired slot cid) (with_pool s r) (inside closing slot cid))
        same
        (record {
          free' = free;
          pool = held.inv;
          small = v.small;
          own = (
            held,
            subst (Known closing slot cid) (sym now)
                (record { numbered_so = f.1.numbered_so; genuine = f.1.genuine; open_until = tt }),
          );
          others = λ u ne i x h.
              Frame-same (record { inv = held.inv; below = h.below; out = h.out })
                (get_or-set_ne s.ack_pool.slots slot i
                  (record (waiter s.ack_pool slot) { cancelled = true }) blank
                  (λ same. ground (arith, v.unique t u i)));
          new_slot = λ i x. inl x;
          owned = λ i a. inr (a, λ x. x);
        })
