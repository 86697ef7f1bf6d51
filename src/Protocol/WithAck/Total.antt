-- ===== src/Protocol/WithAck/Total.antt =====
-- `protocol_send_with_ack` as a whole.
use mach_ipc.Base.{
  ℕ, ◌+◌, ◌%◌, ◌^◌, ◌≤◌, ◌≡◌, ◌≢◌, refl, ap, ◌∙◌, Bool, true, false, Option, none, some, List, [],
  ◌∷◌, pos, minus_one, ◌==◌, arith, Bool-cases, inl, inr, ltb, le→ltb,
}
use mach_ipc.MsgId.{feature_wack, set_feature}
use mach_ipc.Pool.{Pool}
use mach_ipc.Pool.Inv.{Inv}
use mach_ipc.Protocol.Types.{
  KernReturn, failure, invalid_argument, is_success, Payload, Buffer, sizeof_payload,
}
use mach_ipc.Protocol.Send.{protocol_send_message}
use mach_ipc.Protocol.Ack.{Waiter, register_ack_waiter}
use mach_ipc.Protocol.Ack.Slot.{
  registered, registered-Held, waiter-registered, register_lem, register_no_event, register_full,
  register_zero,
}
use mach_ipc.Protocol.WithAck.{
  Environment, Shared, Outcome, returned, waits_forever, send_and_await, protocol_send_with_ack,
}
use mach_ipc.Protocol.WithAck.Laws.{expected, IsProper, settles, sent_lem}

-- The next correlation id.
abbrev pub next_id : ℕ → ℕ
next_id cid = (cid + 1) % 2 ^ 64

module _ (env : Environment) (dest_port reply_port msg_id : ℕ) (payload : Payload) (size : ℕ)
    (user : Buffer) (timeout_ms : ℕ) where
  abbrev call : Shared → Option (Outcome × Shared)
  call s =
      protocol_send_with_ack env s dest_port reply_port msg_id (some payload) size user timeout_ms

  register_made :
      (s : Shared) (i : ℕ) (rest : List ℕ)
      → Inv s.ack_pool (i ∷ rest)
      → (cid : ℕ) → (cid == 0) ≡ false
      → env.event_made ≡ true
      → register_ack_waiter s.ack_pool env.event_made cid
        ≡ some (pos i, registered s.ack_pool i cid)
  register_made s i rest v cid n he =
      ap (λ (b : Bool). register_ack_waiter s.ack_pool b cid) he ∙ register_lem v cid n

  -- With a full payload, a free slot `i`, a correlation id other than 0, an event and a successful
  -- send, the call returns the last acknowledgment for its id and slot that arrives before the end of
  -- the wait; else it waits for ever if there is no timeout; else it returns the last one that arrives
  -- before the call is cancelled, or, without one, KERN_OPERATION_TIMED_OUT. No acknowledgment that
  -- arrives later counts. If it returns, the slot is free again.
  pub protocol_send_with_ack_lem :
      (s : Shared) (i : ℕ) (rest : List ℕ)
      → Inv s.ack_pool (i ∷ rest)
      → sizeof_payload ≤ size
      → s.next_correlation_id ≢ 0
      → env.event_made ≡ true
      → is_success
          (protocol_send_message env.mach_msg env.now dest_port reply_port
            (set_feature msg_id feature_wack)
            (some
              (record payload { correlation_id = s.next_correlation_id; correlation_slot = pos i }))
            size
            user
            timeout_ms).result
        ≡ true
      → let outcome = expected env s.next_correlation_id i timeout_ms in
        (after : Pool Waiter) × (call s
          ≡ some (
            outcome,
            record { ack_pool = after; next_correlation_id = next_id s.next_correlation_id },
          ))
        × (outcome ≢ waits_forever → Inv after (i ∷ rest))
  unfolding protocol_send_with_ack
  protocol_send_with_ack_lem s i rest v hs hn he sent =
      let cid = s.next_correlation_id in
      let e =
        sent_lem env (registered-Held v cid) cid dest_port reply_port msg_id
          (record payload { correlation_id = cid }) size user timeout_ms sent
          (waiter-registered v cid) in
      (
        e.after,
        rw (
          le→ltb size sizeof_payload hs,
          register_made s i rest v cid (ground arith) he,
          e.returns,
        ),
        e.released,
      )

  -- What every call guarantees.
  pub record Sound (s : Shared) (free : List ℕ) : Type 0 where
    pub outcome : Outcome
    pub after : Shared
    pub slot : ℕ
    pub returns : call s ≡ some (outcome, after)
    pub released : outcome ≢ waits_forever → Inv after.ack_pool free
    pub proper : IsProper s.next_correlation_id slot outcome

  refused :
      (s : Shared) (free : List ℕ) (after : Shared) (k : KernReturn)
      → Inv after.ack_pool free
      → IsProper s.next_correlation_id 0 (returned k none)
      → call s ≡ some (returned k none, after)
      → Sound s free
  refused s free after k v proper e = record {
    outcome = returned k none;
    after = after;
    slot = 0;
    returns = e;
    released = λ _. v;
    proper = proper;
  }

  not_registered :
      (s : Shared) (free : List ℕ) (q : Pool Waiter)
      → ltb size sizeof_payload ≡ false
      → Inv q free
      → register_ack_waiter s.ack_pool env.event_made s.next_correlation_id ≡ some (minus_one, q)
      → Sound s free
  unfolding protocol_send_with_ack send_and_await
  not_registered s free q big v e =
      refused s free (record { ack_pool = q; next_correlation_id = next_id s.next_correlation_id })
        failure v tt (rw (big, e))

  registers :
      (s : Shared) (i : ℕ) (rest : List ℕ)
      → ltb size sizeof_payload ≡ false
      → Inv s.ack_pool (i ∷ rest)
      → (s.next_correlation_id == 0) ≡ false
      → (made : Bool) → env.event_made ≡ made
      → Sound s (i ∷ rest)
  unfolding protocol_send_with_ack
  registers s i rest big v n false he =
      let (q, e, w) = register_no_event v s.next_correlation_id n in
      not_registered s (i ∷ rest) q big w
        (ap (λ (b : Bool). register_ack_waiter s.ack_pool b s.next_correlation_id) he ∙ e)
  registers s i rest big v n true he =
      let cid = s.next_correlation_id in
      let r =
        settles env (registered-Held v cid) cid dest_port reply_port msg_id
          (record payload { correlation_id = cid }) size user timeout_ms
          (waiter-registered v cid) in
      record {
        outcome = r.outcome;
        after = record { ack_pool = r.ends.after; next_correlation_id = next_id cid };
        slot = i;
        returns = rw (big, register_made s i rest v cid n he, r.ends.returns);
        released = r.ends.released;
        proper = r.proper;
      }

  -- On a valid pool a call with a payload, whatever its other arguments, runs without a fault, and
  -- unless it waits for ever the slot that it took is free again, on every path: a payload that is too
  -- small, a full pool, an event that cannot be made, a failed send, a reply and a timeout. It reports
  -- success only with a reply, the reply carries this call's correlation id, and no other result
  -- carries one.
  pub protocol_send_with_ack-Sound :
      (s : Shared) (free : List ℕ) → Inv s.ack_pool free → Sound s free
  unfolding protocol_send_with_ack
  protocol_send_with_ack-Sound s free v = elim (Bool-cases (ltb size sizeof_payload)) [
    | inl small ↦ refused s free s invalid_argument v tt (rw small)
    | inr big ↦ elim (Bool-cases (s.next_correlation_id == 0)) [
      | inl z ↦
          not_registered s free s.ack_pool big v
            (register_zero s.ack_pool env.event_made s.next_correlation_id z)
      | inr n ↦ by_free free v big n
    ]
  ]
    where
      by_free :
          (free : List ℕ)
          → Inv s.ack_pool free
          → ltb size sizeof_payload ≡ false
          → (s.next_correlation_id == 0) ≡ false
          → Sound s free
      by_free [] v big n =
          not_registered s [] s.ack_pool big v
            (register_full env.event_made s.next_correlation_id v)
      by_free (i ∷ rest) v big n = registers s i rest big v n env.event_made refl
