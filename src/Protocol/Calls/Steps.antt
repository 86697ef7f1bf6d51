-- ===== src/Protocol/Calls/Steps.antt =====
-- The steps of the system, and what `CallsInv` asks of them.
use mathlib.Core.Option.{some-injective}
use mach_ipc.Base.{
  ℕ, ◌+◌, ◌%◌, ◌^◌, ◌≡◌, refl, subst, sym, ap, Bool, true, false, Option, none, some, if◌then◌else◌,
  List, arith, ◌∙◌, length-set,
}
use mach_ipc.Pool.{Pool}
use mach_ipc.Protocol.Ack.{Incoming, Waiter, collect, handle_ack_message}
use mach_ipc.Protocol.Ack.Waiters.{matches}
use mach_ipc.Protocol.Ack.Deliver.{waiter, with_slots-Inv}
use mach_ipc.Protocol.Ack.Slot.{release-Held, collect_lem}
use mach_ipc.Protocol.Ack.Owner.{refused, taken, handle_ack_message_owner}
use mach_ipc.Protocol.WithAck.{Shared}
use mach_ipc.Protocol.Calls.{
  System, closing, Phase, inside, finished, with_pool, Move, Step, number, register, register_fails,
  send, send_fails, wake, run_out, give_up, close, after_error, after_wait, call, receive,
}
use mach_ipc.Protocol.Calls.Phases.{IsFresh, CallsInv}
use mach_ipc.Protocol.Calls.Frame.{Frame-IsFresh, Frame-ack}
use mach_ipc.Protocol.Calls.Moves.{Moved, Moved-CallsInv, on_its_own, gives_back, cancels}
use mach_ipc.Protocol.Calls.Registers.{registers, fails_to_register}

collected :
    (q : Pool Waiter) (free : List ℕ) (slot cid : ℕ) (received : Bool)
    (stored reply : Option Incoming)
    → ((r : Incoming) → stored ≡ some r → matches cid slot r ≡ true)
    → (if received then stored else none) ≡ reply
    → IsFresh q free (finished slot cid reply)
collected q free slot cid received stored none genuine e = tt
collected q free slot cid true stored (some r) genuine e = genuine r e
collected q free slot cid false stored (some r) genuine e = absurd cc

module _ {s : Shared} {phase : ℕ → Phase} {free : List ℕ} (v : CallsInv s phase free) where
  -- The call collects its reply and gives the slot back.
  closes :
      (t : ℕ) {slot cid : ℕ} {reply : Option Incoming} {q : Pool Waiter}
      → phase t ≡ inside closing slot cid
      → IsFresh s.ack_pool free (inside closing slot cid)
      → collect s.ack_pool slot ≡ some (reply, q)
      → Moved v t (inside closing slot cid) (with_pool s q) (finished slot cid reply)
  closes t {slot} {cid} {reply} {q} here f e =
      let same = some-injective _ _ (sym (collect_lem f.0) ∙ e) in
      gives_back v t slot here refl f ((release-Held f.0).0 ∙ ap (λ x. some x.1) same)
        (λ free'.
          collected q free' slot cid (waiter s.ack_pool slot).received
            (waiter s.ack_pool slot).reply reply f.1.genuine (ap (λ x. x.0) same))
        refl

  moved :
      (t : ℕ) {ph ph' : Phase} {after : Shared}
      → Move s ph after ph'
      → phase t ≡ ph
      → IsFresh s.ack_pool free ph
      → Moved v t ph after ph'
  moved t (number timeout_ms) e f =
      on_its_own v t (record s { next_correlation_id = (s.next_correlation_id + 1) % 2 ^ 64 }) refl
        (omega arith) tt refl
  moved t (register event_made x) e f = registers v t event_made e x
  moved t (register_fails event_made x) e f =
      fails_to_register v t event_made (Phase.refused _) x refl tt
  moved t (send {slot}) e f =
      on_its_own v t s refl v.small
        (
          f.0,
          record {
            numbered_so = f.1.numbered_so;
            genuine = f.1.genuine;
            open_until = f.1.open_until;
          },
        )
        refl
  moved t (send_fails {slot} k bad x) e f = gives_back v t slot e refl f x (λ _. tt) refl
  moved t (wake w at signalled) e f =
      on_its_own v t s refl v.small
        (f.0, record { numbered_so = f.1.numbered_so; genuine = f.1.genuine; open_until = tt }) refl
  moved t (run_out w timed at unsignalled) e f =
      on_its_own v t s refl v.small
        (
          f.0,
          record {
            numbered_so = f.1.numbered_so;
            genuine = f.1.genuine;
            open_until = f.1.open_until;
          },
        )
        refl
  moved t (give_up x) e f = cancels v t e f x
  moved t (close x) e f = closes t e f x
  moved t after_error e f = on_its_own v t s refl v.small tt refl
  moved t after_wait e f = on_its_own v t s refl v.small tt refl

  received :
      (ack : Incoming) {got : Bool} {q : Pool Waiter}
      → handle_ack_message s.ack_pool ack ≡ some (got, q)
      → CallsInv (with_pool s q) phase free
  received ack {got} {q} e = elim (handle_ack_message_owner ack v.pool) [
    | refused done ↦
        subst (λ r. CallsInv (with_pool s r) phase free)
          (ap (λ x. x.1) (some-injective _ _ (sym done ∙ e))) v
    | taken i a m c done ↦
        subst (λ r. CallsInv (with_pool s r) phase free)
          (ap (λ x. x.1) (some-injective _ _ (sym done ∙ e)))
          (record {
            pool = with_slots-Inv _ v.pool (length-set _ i _);
            small = v.small;
            fresh = λ u. Frame-IsFresh (phase u) (λ j x h. Frame-ack i j ack m h) (v.fresh u);
            unique = v.unique;
            owned = v.owned;
          })
  ]

-- Every step of the system keeps the invariant.
pub Step-CallsInv :
    {s t : System} {free : List ℕ}
    → Step s t
    → CallsInv s.shared s.phase free
    → (free' : List ℕ) × CallsInv t.shared t.phase free'
Step-CallsInv {s} (call t mv) v = Moved-CallsInv v t (moved v t mv refl (v.fresh t))
Step-CallsInv {s} {free} (receive ack e) v = (free, received v ack e)
