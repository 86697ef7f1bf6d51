-- ===== src/Protocol/WithAck/Schedule/Progress.antt =====
-- How a call comes back, and when it cannot.
use mathlib.Core.Option.{some-injective}
use mach_ipc.Base.{
  ℕ, suc, ◌^◌, ◌<◌, ◌≡◌, ◌≢◌, ◌⊎◌, ◌∙◌, refl, sym, subst, ap, inl, inr, List, ℤ, length, true,
  false, arith, get_elem?, get_elem?-eq-get_or, Bool-cases,
}
use mach_ipc.Pool.{Pool}
use mach_ipc.Protocol.Ack.{Waiter}
use mach_ipc.Protocol.Ack.Deliver.{waiter, blank}
use mach_ipc.Protocol.Ack.Slot.{cancel_lem, collect_lem, made, failed, registering}
use mach_ipc.Protocol.WithAck.{Shared}
use mach_ipc.Protocol.Calls.{
  System, sending, waiting, expired, closing, Phase, idle, numbered, inside, refused, finished,
  Move, number, register, register_fails, send, send_fails, wake, run_out, give_up, close,
  after_error, after_wait, call, Reach, start,
}
use mach_ipc.Protocol.Calls.Phases.{IsFresh, CallsInv}
use mach_ipc.Protocol.Calls.Steps.{Step-CallsInv}
use mach_ipc.Protocol.Calls.Reached.{initial, Reach-CallsInv}
use mach_ipc.Protocol.WithAck.Schedule.{Course, moves}

-- Not in a call, or back from it.
abbrev pub IsOver : Phase → Type 0
IsOver (numbered timeout_ms cid) = ⊥
IsOver (inside stage slot cid) = ⊥
IsOver _ = Unit

-- The call has a timeout or is past its wait, or its event is set.
abbrev pub IsLimited : Pool Waiter → Phase → Type 0
IsLimited p (numbered timeout_ms cid) = timeout_ms ≢ 0
IsLimited p (inside (sending timeout_ms) slot cid) = timeout_ms ≢ 0
IsLimited p (inside (waiting timeout_ms) slot cid) =
    (timeout_ms ≢ 0) ⊎ ((waiter p slot).event ≡ true)
IsLimited p _ = Unit

-- Steps of thread `t` alone that bring it back.
abbrev pub CanReturn : System → ℕ → Type 0
CanReturn s t = (after : Shared) × (ph : Phase) × Course s t after ph × IsOver ph

-- A course with the invariant at its end.
abbrev Kept : System → ℕ → Shared → Phase → Type 0
Kept s t sh ph = (c : Course s t sh ph) × (free : List ℕ) × CallsInv sh c.phase free

module _ {s : System} {t : ℕ} where
  advance :
      {sh after : Shared} {ph ph' : Phase}
      → Kept s t sh ph
      → Move sh ph after ph'
      → Kept s t after ph'
  unfolding moves
  advance {sh} {after} {ph} {ph'} (c, free, v) mv =
      let (free', v') =
        Step-CallsInv (call t (subst (λ (x : Phase). Move sh x after ph') (sym c.here) mv)) v in
      (moves c mv, free', v')

  mine : {sh : Shared} {ph : Phase} (k : Kept s t sh ph) → IsFresh sh.ack_pool k.1 ph
  mine {sh} (c, free, v) = subst (IsFresh sh.ack_pool free) c.here (v.fresh t)

  closing-CanReturn :
      {sh : Shared} {slot cid : ℕ} → Kept s t sh (inside closing slot cid) → CanReturn s t
  closing-CanReturn k = (_, _, (advance k (close (collect_lem (mine k).0))).0, tt)

  expired-CanReturn :
      {sh : Shared} {slot cid : ℕ} → Kept s t sh (inside expired slot cid) → CanReturn s t
  expired-CanReturn k = closing-CanReturn (advance k (give_up (cancel_lem (mine k).0).0))

  -- The event is set, or the wait runs out.
  waiting-CanReturn :
      {sh : Shared} {timeout_ms slot cid : ℕ}
      → Kept s t sh (inside (waiting timeout_ms) slot cid)
      → (timeout_ms ≢ 0) ⊎ ((waiter sh.ack_pool slot).event ≡ true)
      → CanReturn s t
  waiting-CanReturn {sh} {timeout_ms} {slot} k limited =
      let held = (mine k).0 in
      let at =
        get_elem?-eq-get_or sh.ack_pool.slots slot blank
          (omega (arith, held.inv.slots_size, held.below)) in
      elim (Bool-cases (waiter sh.ack_pool slot).event) [
        | inl signalled ↦
            closing-CanReturn (advance k (wake (waiter sh.ack_pool slot) at signalled))
        | inr asleep ↦ elim limited [
          | inl timed ↦
              expired-CanReturn (advance k (run_out (waiter sh.ack_pool slot) timed at asleep))
          | inr signalled ↦ let bad : true ≡ false = sym signalled ∙ asleep in cc
        ]
      ]

  sending-CanReturn :
      {sh : Shared} {timeout_ms slot cid : ℕ}
      → Kept s t sh (inside (sending timeout_ms) slot cid)
      → timeout_ms ≢ 0
      → CanReturn s t
  sending-CanReturn k timed = waiting-CanReturn (advance k send) (inl timed)

  numbered-CanReturn :
      {sh : Shared} {timeout_ms cid : ℕ}
      → Kept s t sh (numbered timeout_ms cid)
      → timeout_ms ≢ 0
      → CanReturn s t
  numbered-CanReturn {sh} {timeout_ms} {cid} (c, free, v) timed =
      elim (registering true cid v.pool) [
        | made i rest e done ↦ sending-CanReturn (advance (c, free, v) (register true done)) timed
        | failed q done w slots capacity ↦
            (_, _, (advance (c, free, v) (register_fails true done)).0, tt)
      ]

  by_phase :
      (ph : Phase) → {sh : Shared} → Kept s t sh ph → IsLimited sh.ack_pool ph → CanReturn s t
  by_phase idle k l = (_, _, k.0, tt)
  by_phase (numbered timeout_ms cid) k l = numbered-CanReturn k l
  by_phase (inside (sending timeout_ms) slot cid) k l = sending-CanReturn k l
  by_phase (inside (waiting timeout_ms) slot cid) k l = waiting-CanReturn k l
  by_phase (inside expired slot cid) k l = expired-CanReturn k
  by_phase (inside closing slot cid) k l = closing-CanReturn k
  by_phase (refused result) x l = (_, _, x.0, tt)
  by_phase (finished slot cid reply) k l = (_, _, k.0, tt)

-- A wait without timeout goes on until its event is set.
no_move :
    {sh after : Shared} {ph ph' : Phase} (slot cid : ℕ)
    → Move sh ph after ph'
    → ph ≡ inside (waiting 0) slot cid
    → slot < length sh.ack_pool.slots
    → (waiter sh.ack_pool slot).event ≡ false
    → ⊥
no_move slot cid (number timeout_ms) e lt asleep = cc
no_move slot cid (register event_made x) e lt asleep = cc
no_move slot cid (register_fails event_made x) e lt asleep = cc
no_move slot cid send e lt asleep = cc
no_move slot cid (send_fails k bad x) e lt asleep = cc
no_move {sh} slot cid (wake {slot = other} w at signalled) e lt asleep =
    let same : other ≡ slot = cc in
    let there = get_elem?-eq-get_or sh.ack_pool.slots slot blank lt in
    let found = ap (get_elem? sh.ack_pool.slots) (sym same) ∙ at in
    let w_same = some-injective _ _ (sym there ∙ found) in
    let bad : true ≡ false = sym signalled ∙ (ap (λ (x : Waiter). x.event) (sym w_same) ∙ asleep) in
    cc
no_move slot cid (run_out w timed at unsignalled) e lt asleep = timed cc
no_move slot cid (give_up x) e lt asleep = cc
no_move slot cid (close x) e lt asleep = cc
no_move slot cid after_error e lt asleep = cc
no_move slot cid after_wait e lt asleep = cc

-- What a thread that waits without timeout can do while its event is not set: nothing.
abbrev pub IsStuck : System → ℕ → Type 0
IsStuck s t =
    (slot cid : ℕ)
    → s.phase t ≡ inside (waiting 0) slot cid
    → (waiter s.shared.ack_pool slot).event ≡ false
    → (after : Shared) (ph : Phase) → Move s.shared (s.phase t) after ph
    → ⊥

-- From every state that calls and acknowledgments lead to from a fresh pool, in any order: a call can come
-- back by steps of its own thread alone, while the other threads stay where they are and no further
-- acknowledgment arrives, if it has a timeout or is past its wait, or if its event is set. A call that
-- waits without timeout and whose event is not set has no step of its own: it waits for an acknowledgment.
pub Reach-CanReturn :
    (last : ℕ) (slots : List Waiter) (next : List ℤ) (cid : ℕ)
    → length slots ≡ suc last
    → length next ≡ suc last
    → cid < 2 ^ 64
    → {s : System} → Reach (initial last slots next cid) s
    → (t : ℕ) → (IsLimited s.shared.ack_pool (s.phase t) → CanReturn s t) × IsStuck s t
Reach-CanReturn last slots next cid hs hn small {s} r t =
    let (free, v) = Reach-CallsInv last slots next cid hs hn small r in
    (
      by_phase (s.phase t) (
        record { phase = s.phase; here = refl; elsewhere = λ u ne. refl; steps = start },
        free,
        v,
      ),
      λ slot cid e asleep after ph mv.
          let held = (subst (IsFresh s.shared.ack_pool free) e (v.fresh t)).0 in
          no_move slot cid mv e (omega (arith, held.inv.slots_size, held.below)) asleep,
    )
