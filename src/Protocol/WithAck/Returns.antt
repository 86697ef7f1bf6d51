-- ===== src/Protocol/WithAck/Returns.antt =====
-- A call of `protocol_send_with_ack` with a timeout comes back.
use mathlib.Core.Option.{some-injective}
use mach_ipc.Base.{
  ℕ, subst, ◌≡◌, ◌≢◌, refl, ap, sym, ◌∙◌, Bool, true, false, Option, none, some, ◌>>=◌, List, pos,
  negsuc, ℤ, ◌==◌, if◌then◌else◌, get_elem?, ltb, arith,
}
use mach_ipc.Pool.{Pool, pool_pop}
use mach_ipc.Pool.Inv.{Inv}
use mach_ipc.Protocol.Types.{
  KernReturn, failure, invalid_argument, timed_out, success, Payload, Buffer, sizeof_payload,
}
use mach_ipc.Protocol.Ack.{Incoming, Waiter, register_ack_waiter, handle_acks, cancel, collect}
use mach_ipc.Protocol.WithAck.{
  Environment, Shared, Outcome, returned, waits_forever, finish, expire, await, send_and_await,
  protocol_send_with_ack,
}
use mach_ipc.Protocol.WithAck.Total.{protocol_send_with_ack-Sound}

-- No result is a wait without end.
abbrev Returns : {A : Type 0} → Option (Outcome × A) → Type 0
Returns {A} o = (x : Outcome × A) → o ≡ some x → x.0 ≢ waits_forever

some-Returns :
    {A : Type 0} (k : KernReturn) (reply : Option Incoming) (a : A)
    → Returns (some (returned k reply, a))
some-Returns {A} k reply a x e w =
    let same = ap (λ (p : Outcome × A). p.0) (some-injective _ _ e) in cc

bind-Returns :
    {A B : Type 0} (o : Option B) (f : B → Option (Outcome × A))
    → ((b : B) → Returns (f b))
    → Returns (o >>= f)
bind-Returns none f h x e = cc
bind-Returns (some b) f h x e = h b x e

if-Returns :
    {A : Type 0} (b : Bool) (x y : Option (Outcome × A))
    → Returns x
    → Returns y
    → Returns (if b then x else y)
if-Returns true x y h g = h
if-Returns false x y h g = g

finish-Returns : (p : Pool Waiter) (slot : ℕ) → Returns (finish p slot)
unfolding finish
finish-Returns p slot =
    bind-Returns (collect p slot) _
      (λ b. some-Returns (elim b.0 [ none ↦ timed_out | some r ↦ success ]) b.0 b.1)

expire-Returns : (env : Environment) (p : Pool Waiter) (slot : ℕ) → Returns (expire env p slot)
unfolding expire
expire-Returns env p slot = bind-Returns (handle_acks p env.late) _ (λ b.
    bind-Returns (cancel b.1 slot) _
      (λ q. bind-Returns (handle_acks q env.cancelled) _ (λ d. finish-Returns d.1 slot)))

await-Returns :
    (env : Environment) (p : Pool Waiter) (slot timeout_ms : ℕ)
    → timeout_ms ≢ 0
    → Returns (await env p slot timeout_ms)
unfolding await
await-Returns env p slot timeout_ms n =
    let given : (timeout_ms == 0) ≡ false = ground arith in
    bind-Returns (handle_acks p env.before) _ (λ b. bind-Returns (get_elem? b.1.slots slot) _ (λ w.
      if-Returns w.event _ _ (finish-Returns b.1 slot) (
        subst (λ (t : Bool). Returns (if t then some (waits_forever, b.1) else expire env b.1 slot))
          (sym given) (expire-Returns env b.1 slot))))

pass-Returns :
    {A B : Type 0} (o : Option (Outcome × A)) (g : Outcome × A → B)
    → Returns o
    → Returns (o >>= (λ r. some (r.0, g r)))
pass-Returns {A} {B} none g h x e w = cc
pass-Returns {A} {B} (some r) g h x e w =
    h r refl (ap (λ (p : Outcome × B). p.0) (some-injective _ _ e) ∙ w)

module _ (env : Environment) (dest_port reply_port msg_id : ℕ) (payload : Payload)
    (payload_size : ℕ) (user : Buffer) (timeout_ms : ℕ) (n : timeout_ms ≢ 0) where
  send_and_await-Returns :
      (p : Pool Waiter) (slot : ℤ) (sent : Payload)
      → Returns
          (send_and_await env p slot dest_port reply_port msg_id sent payload_size user timeout_ms)
  unfolding send_and_await
  send_and_await-Returns p (negsuc k) sent = some-Returns failure none p
  send_and_await-Returns p (pos slot) sent =
      if-Returns _ _ _ (await-Returns env p slot timeout_ms n)
        (bind-Returns (pool_pop p (pos slot)) _ (λ q. some-Returns _ none q))

  call-Returns :
      (s : Shared)
      → Returns (
          protocol_send_with_ack env s dest_port reply_port msg_id
            (some payload)
            payload_size
            user
            timeout_ms)
  unfolding protocol_send_with_ack
  call-Returns s =
      if-Returns (ltb payload_size sizeof_payload) _ _ (some-Returns invalid_argument none s) (
        bind-Returns (register_ack_waiter s.ack_pool env.event_made s.next_correlation_id) _
          (λ b. pass-Returns _ _ (send_and_await-Returns b.1 b.0 _)))

  by_outcome :
      (o : Outcome)
      → o ≢ waits_forever
      → (k : KernReturn) × (reply : Option Incoming) × (o ≡ returned k reply)
  by_outcome (returned k reply) h = (k, reply, refl)
  by_outcome waits_forever h = absurd (h refl)

  -- With a payload and a timeout other than 0 a call on a valid pool comes back with a return code,
  -- whatever the system answers and whatever acknowledgments arrive or stay away, and the slots that
  -- were free are free again.
  pub protocol_send_with_ack_returns :
      (s : Shared) (free : List ℕ)
      → Inv s.ack_pool free
      → (k : KernReturn) × (reply : Option Incoming) × (after : Shared) × (protocol_send_with_ack
            env s dest_port reply_port msg_id
            (some payload)
            payload_size
            user
            timeout_ms
          ≡ some (returned k reply, after))
        × Inv after.ack_pool free
  protocol_send_with_ack_returns s free v =
      let sound =
        protocol_send_with_ack-Sound env dest_port reply_port msg_id payload payload_size user
          timeout_ms s free v in
      let back = call-Returns s (sound.outcome, sound.after) sound.returns in
      let (k, reply, e) = by_outcome sound.outcome back in
      (
        k,
        reply,
        sound.after,
        sound.returns ∙ ap (λ (o : Outcome). some (o, sound.after)) e,
        sound.released back,
      )
