-- ===== src/Protocol/WithAck/Schedule.antt =====
-- `protocol_send_with_ack`, as one call with its environment, in steps.
pub mod Progress
use mathlib.Core.Option.{some-injective}
use mach_ipc.Base.{
  ℕ, zero, suc, ◌≡◌, ◌≢◌, refl, ◌∙◌, sym, subst, ap, Bool, true, false, Option, none, some, ◌>>=◌,
  List, [], ◌∷◌, ℤ, pos, negsuc, ltb, ◌==◌, if◌then◌else◌, get_elem?, arith, Bool-cases, inl, inr,
}
use mach_ipc.MsgId.{feature_wack, set_feature}
use mach_ipc.Pool.{Pool, pool_pop}
use mach_ipc.Protocol.Types.{
  success, failure, timed_out, is_success, Payload, Buffer, sizeof_payload,
}
use mach_ipc.Protocol.Send.{Sent, protocol_send_message}
use mach_ipc.Protocol.Ack.{
  Incoming, Waiter, register_ack_waiter, handle_ack_message, handle_acks, cancel, collect,
}
use mach_ipc.Protocol.WithAck.{
  Environment, Shared, Outcome, returned, waits_forever, finish, expire, await, send_and_await,
  protocol_send_with_ack,
}
use mach_ipc.Protocol.Calls.{
  System, sending, waiting, expired, closing, Phase, idle, numbered, inside, refused, finished,
  Move, number, register, register_fails, send, send_fails, wake, run_out, give_up, close, call,
  receive, Reach, start, later, with_pool, update,
}
use mach_ipc.Protocol.Calls.Frame.{update-cases}

-- The steps lead from `s` to a state with `after`, in which thread `t` is in phase `ph` and the other
-- threads are where they were.
pub record Course (s : System) (t : ℕ) (after : Shared) (ph : Phase) : Type 0 where
  pub phase : ℕ → Phase
  pub here : phase t ≡ ph
  pub elsewhere : (u : ℕ) → t ≢ u → phase u ≡ s.phase u
  pub steps : Reach s (record { shared = after; phase = phase })

-- What a call in this phase has come to.
abbrev pub outcome_of : Phase → Option Outcome
outcome_of (refused k) = some (returned k none)
outcome_of (finished slot cid reply) =
    some (returned (elim reply [ none ↦ timed_out | some r ↦ success ]) reply)
outcome_of (inside (waiting zero) slot cid) = some waits_forever
outcome_of _ = none

forever_outcome :
    (timeout_ms slot cid : ℕ)
    → (timeout_ms == 0) ≡ true
    → outcome_of (inside (waiting timeout_ms) slot cid) ≡ some waits_forever
forever_outcome zero slot cid e = refl
forever_outcome (suc n) slot cid e = absurd (ground (arith, e))

bind-some :
    {A B : Type 0} (o : Option A) (f : A → Option B) (b : B)
    → (o >>= f) ≡ some b
    → (a : A) × (o ≡ some a) × (f a ≡ some b)
bind-some none f b e = absurd cc
bind-some (some a) f b e = (a, refl, e)

module _ {s : System} {t : ℕ} where
  pub moves :
      {sh after : Shared} {ph ph' : Phase}
      → Course s t sh ph
      → Move sh ph after ph'
      → Course s t after ph'
  moves {sh} {after} {ph} {ph'} c mv = record {
    phase = update c.phase t ph';
    here = update-cases (λ x. x ≡ ph') c.phase t t refl (λ ne. absurd (ne refl));
    elsewhere = λ u ne. ground (arith, ne, c.elsewhere u ne);
    steps = later c.steps (call t (subst (λ x. Move sh x after ph') (sym c.here) mv));
  }

  acks :
      (list : List Incoming) {sh : Shared} {ph : Phase} {told : List Bool} {q : Pool Waiter}
      → Course s t sh ph
      → handle_acks sh.ack_pool list ≡ some (told, q)
      → Course s t (with_pool sh q) ph
  unfolding handle_acks
  acks [] {sh} {ph} c e =
      subst (λ q. Course s t (with_pool sh q) ph) (ap (λ x. x.1) (some-injective _ _ e)) c
  acks (ack ∷ list) {sh} {ph} {told} {q} c e =
      let (r, first, e2) = bind-some (handle_ack_message sh.ack_pool ack) _ _ e in
      let (r2, others, e3) = bind-some (handle_acks r.1 list) _ _ e2 in
      let c1 : Course s t (with_pool sh r.1) ph = record {
        phase = c.phase;
        here = c.here;
        elsewhere = c.elsewhere;
        steps = later c.steps (receive ack first);
      } in
      subst (λ q. Course s t (with_pool sh q) ph) (ap (λ x. x.1) (some-injective _ _ e3))
        (acks list c1 others)

if_then : {A : Type 0} {b : Bool} {x z : A} (y : A) → b ≡ true → (if b then x else y) ≡ z → x ≡ z
if_then {A} {b} {x} y h e = sym (ap (λ (c : Bool). if c then x else y) h) ∙ e

if_else : {A : Type 0} {b : Bool} {y z : A} (x : A) → b ≡ false → (if b then x else y) ≡ z → y ≡ z
if_else {A} {b} {y} x h e = sym (ap (λ (c : Bool). if c then x else y) h) ∙ e

-- A course to the phase in which the call has this outcome.
abbrev pub Ends : System → ℕ → Shared → Outcome → Type 0
Ends s t after outcome = (ph : Phase) × Course s t after ph × (outcome_of ph ≡ some outcome)

module _ {s : System} {t : ℕ} (sh : Shared) where
  same_end :
      {a b : Outcome × Pool Waiter}
      → some a ≡ some b
      → Ends s t (with_pool sh a.1) a.0
      → Ends s t (with_pool sh b.1) b.0
  same_end {a} {b} e = subst (λ x. Ends s t (with_pool sh x.1) x.0) (some-injective a b e)

module _ {s : System} {t : ℕ} where
  finishes :
      {sh : Shared} {slot cid : ℕ} {outcome : Outcome} {q : Pool Waiter}
      → Course s t sh (inside closing slot cid)
      → finish sh.ack_pool slot ≡ some (outcome, q)
      → Ends s t (with_pool sh q) outcome
  unfolding finish
  finishes {sh} {slot} {cid} c e =
      let ((reply, q), collected, e2) = bind-some (collect sh.ack_pool slot) _ _ e in
      same_end sh e2 (finished slot cid reply, moves c (close collected), refl)

  -- The wait has run out.
  expires :
      {sh : Shared} (env : Environment) {slot cid : ℕ} {outcome : Outcome} {q : Pool Waiter}
      → Course s t sh (inside expired slot cid)
      → expire env sh.ack_pool slot ≡ some (outcome, q)
      → Ends s t (with_pool sh q) outcome
  unfolding expire
  expires {sh} env {slot} {cid} c e =
      let ((told, p1), late, e1) = bind-some (handle_acks sh.ack_pool env.late) _ _ e in
      let (p2, given_up, e2) = bind-some (cancel p1 slot) _ _ e1 in
      let ((more, p3), after, e3) = bind-some (handle_acks p2 env.cancelled) _ _ e2 in
      finishes (acks env.cancelled (moves (acks env.late c late) (give_up given_up)) after) e3

  awaits :
      {sh : Shared} (env : Environment) {slot cid : ℕ} (timeout_ms : ℕ) {outcome : Outcome}
      {q : Pool Waiter}
      → Course s t sh (inside (waiting timeout_ms) slot cid)
      → await env sh.ack_pool slot timeout_ms ≡ some (outcome, q)
      → Ends s t (with_pool sh q) outcome
  unfolding await
  awaits {sh} env {slot} {cid} timeout_ms c e =
      let ((told, p), before, e1) = bind-some (handle_acks sh.ack_pool env.before) _ _ e in
      let (w, at, e2) = bind-some (get_elem? p.slots slot) _ _ e1 in
      let c1 = acks env.before c before in
      elim (Bool-cases w.event) [
        | inl woken ↦ finishes (moves c1 (wake w at woken)) (if_then _ woken e2)
        | inr asleep ↦ elim (Bool-cases (timeout_ms == 0)) [
          | inl forever ↦ same_end sh (if_then _ forever (if_else _ asleep e2)) (
            inside (waiting timeout_ms) slot cid,
            c1,
            forever_outcome timeout_ms slot cid forever,
          )
          | inr limited ↦
              expires env (moves c1 (run_out w (λ z. ground (arith, limited, z)) at asleep))
                (if_else _ limited (if_else _ asleep e2))
        ]
      ]

  module _ (env : Environment) (dest_port reply_port msg_id : ℕ) (payload_size : ℕ) (user : Buffer)
      (timeout_ms : ℕ) where
    sends :
        {sh : Shared} {slot cid : ℕ} (payload : Payload) {outcome : Outcome} {q : Pool Waiter}
        → Course s t sh (inside (sending timeout_ms) slot cid)
        → send_and_await env sh.ack_pool
            (pos slot)
            dest_port
            reply_port
            msg_id
            payload
            payload_size
            user
            timeout_ms
          ≡ some (outcome, q)
        → Ends s t (with_pool sh q) outcome
    unfolding send_and_await
    sends {sh} {slot} {cid} payload c e = elim (Bool-cases (is_success sent.result)) [
      | inl arrived ↦ awaits env timeout_ms (moves c send) (if_then _ arrived e)
      | inr lost ↦
          let (r, popped, e1) =
            bind-some (pool_pop sh.ack_pool (pos slot)) _ _ (if_else _ lost e) in
          same_end sh e1 (refused sent.result, moves c (send_fails sent.result lost popped), refl)
    ]
      where
        sent : Sent
        sent =
            protocol_send_message env.mach_msg env.now dest_port reply_port
              (set_feature msg_id feature_wack)
              (some (record payload { correlation_slot = pos slot })) payload_size user timeout_ms

    registered :
        {sh : Shared} {cid : ℕ} (payload : Payload) (slot : ℤ) {p : Pool Waiter} {outcome : Outcome}
        {q : Pool Waiter}
        → Course s t sh (numbered timeout_ms cid)
        → register_ack_waiter sh.ack_pool env.event_made cid ≡ some (slot, p)
        → send_and_await env p slot dest_port reply_port msg_id payload payload_size user timeout_ms
          ≡ some (outcome, q)
        → Ends s t (with_pool sh q) outcome
    unfolding send_and_await
    registered payload (pos slot) c made e =
        sends payload (moves c (register env.event_made made)) e
    registered {sh} payload (negsuc n) c made e =
        same_end sh e (refused failure, moves c (register_fails env.event_made made), refl)

-- A call that passes the check of its payload is one order of the steps: if thread `t` is not in a call, then
-- the steps lead from the state before the call to the state after it, with the thread in the phase
-- of the outcome and the other threads where they were.
pub protocol_send_with_ack-schedule :
    (env : Environment) (dest_port reply_port msg_id : ℕ) (payload : Payload) (payload_size : ℕ)
    (user : Buffer) (timeout_ms : ℕ) (s : System) (t : ℕ) {outcome : Outcome} {after : Shared}
    → s.phase t ≡ idle
    → ltb payload_size sizeof_payload ≡ false
    → protocol_send_with_ack env s.shared dest_port reply_port msg_id
        (some payload)
        payload_size
        user
        timeout_ms
      ≡ some (outcome, after)
    → Ends s t after outcome
unfolding protocol_send_with_ack
protocol_send_with_ack-schedule env dest_port reply_port msg_id payload payload_size user timeout_ms
      s t {outcome} {after} rest fits e =
    let ((slot, p), made, e1) =
      bind-some (register_ack_waiter s.shared.ack_pool env.event_made s.shared.next_correlation_id)
        _ _ (if_else _ fits e) in
    let ((o, q), ended, e2) =
      bind-some
        (send_and_await env p slot dest_port reply_port msg_id _ payload_size user timeout_ms) _ _
        e1 in
    let c : Course s t s.shared idle = record {
      phase = s.phase;
      here = rest;
      elsewhere = λ u ne. refl;
      steps = start;
    } in
    let done =
      registered env dest_port reply_port msg_id payload_size user timeout_ms _ slot
        (moves c (number timeout_ms)) made ended in
    subst (λ (x : Outcome × Shared). Ends s t x.1 x.0) (some-injective _ _ e2) done
