-- ===== src/Protocol/WithAck/Laws.antt =====
-- `protocol_send_with_ack` always gives its slot back, and returns the reply that is its own.
use mach_ipc.Base.{
  ℕ, ◌≡◌, ◌≢◌, refl, ap, ◌∙◌, Bool, true, false, Option, none, some, List, ◌∷◌, pos, ◌==◌,
  if◌then◌else◌, arith, Bool-cases, inl, inr, get_elem?, get_elem?-eq-get_or,
}
use mach_ipc.Pool.{Pool}
use mach_ipc.Pool.Inv.{Inv, freed}
use mach_ipc.Protocol.Types.{KernReturn, success, timed_out, is_success, Payload, Buffer}
use mach_ipc.MsgId.{feature_wack, set_feature}
use mach_ipc.Protocol.Send.{Sent, protocol_send_message}
use mach_ipc.Protocol.Ack.{Incoming, Waiter, new_waiter, handle_acks}
use mach_ipc.Protocol.Ack.Waiters.{
  last_match, last_match-matches, matches, deliver_all, deliver_all_lem, deliver_all_cancelled,
  with_reply,
}
use mach_ipc.Protocol.Ack.Deliver.{waiter, blank, with_slots, all-Handled}
use mach_ipc.Protocol.Ack.Slot.{
  Held, Held-active, Held-slots, release-Held, cancel_lem, collect_lem,
}
use mach_ipc.Protocol.WithAck.{
  Environment, Outcome, returned, waits_forever, finish, expire, await, send_and_await,
}

-- The outcome by the acknowledgments alone: the last one for this call that arrives in time, or, if
-- there is none and the call does not wait for ever, the last one that arrives before the call is
-- cancelled.
unfoldable pub outcome_of : Option Incoming → Outcome
outcome_of none = returned timed_out none
outcome_of (some r) = returned success (some r)

unfoldable pub outcome_by : (timeout_ms : ℕ) (before late : Option Incoming) → Outcome
unfolding outcome_of
outcome_by timeout_ms (some r) late = returned success (some r)
outcome_by timeout_ms none late = if timeout_ms == 0 then waits_forever else outcome_of late

unfoldable pub expected : Environment → (cid i timeout_ms : ℕ) → Outcome
unfolding outcome_by
expected env cid i timeout_ms =
    outcome_by timeout_ms (last_match cid i env.before) (last_match cid i env.late)

-- The rest of a call from a point where slot `i` is its own.
pub record Ends (rest : List ℕ) (i : ℕ) (outcome : Outcome)
    (result : Option (Outcome × Pool Waiter)) : Type 0 where
  pub after : Pool Waiter
  pub returns : result ≡ some (outcome, after)
  pub released : outcome ≢ waits_forever → Inv after (i ∷ rest)

-- The reply that `collect` reads.
abbrev reply_of : Waiter → Option Incoming
reply_of w = if w.received then w.reply else none

reply_of-with_reply :
    (cid : ℕ) (c : Bool) (o : Option Incoming)
    → reply_of (record (with_reply (new_waiter cid) o) { cancelled = c }) ≡ o
reply_of-with_reply cid c none = refl
reply_of-with_reply cid c (some r) = refl

module _ {p : Pool Waiter} {rest : List ℕ} {i : ℕ} (h : Held p rest i) where
  finish_with :
      (o : Option Incoming) → reply_of (waiter p i) ≡ o → Ends rest i (outcome_of o) (finish p i)
  unfolding finish outcome_of
  finish_with none e = record {
    after = freed p i;
    returns = rw (collect_lem h, e);
    released = λ _. (release-Held h).1;
  }
  finish_with (some r) e = record {
    after = freed p i;
    returns = rw (collect_lem h, e);
    released = λ _. (release-Held h).1;
  }

  -- The slot after the receive thread has handled some acknowledgments.
  record Waited (acks : List Incoming) (w : Waiter) : Type 0 where
    taken : List Bool
    slots : List Waiter
    returns : handle_acks p acks ≡ some (taken, with_slots p slots)
    held : Held (with_slots p slots) rest i
    now_there : waiter (with_slots p slots) i ≡ deliver_all i w acks

  waited : (acks : List Incoming) (w : Waiter) → waiter p i ≡ w → Waited acks w
  waited acks w e =
      let r = all-Handled acks h.inv in
      record {
        taken = r.taken;
        slots = r.slots;
        returns = r.returns;
        held = Held-slots r.slots h r.same_length;
        now_there = r.delivered i (Held-active h) ∙ ap (λ (x : Waiter). deliver_all i x acks) e;
      }

there_is :
    {p : Pool Waiter} {rest : List ℕ} {i : ℕ}
    → Held p rest i
    → get_elem? p.slots i ≡ some (waiter p i)
there_is {p} {rest} {i} h =
    get_elem?-eq-get_or p.slots i blank (omega (arith, h.inv.slots_size, h.below))

module _ (env : Environment) {p : Pool Waiter} {rest : List ℕ} {i : ℕ} (h : Held p rest i)
    (cid : ℕ) where
  expire_lem :
      waiter p i ≡ new_waiter cid
      → Ends rest i (outcome_of (last_match cid i env.late)) (expire env p i)
  unfolding expire
  expire_lem e =
      let o = last_match cid i env.late in
      let l = waited h env.late (new_waiter cid) e in
      let c = cancel_lem l.held in
      let w = record (with_reply (new_waiter cid) o) { cancelled = true } in
      let there =
        c.2
        ∙ ap (λ (x : Waiter). record x { cancelled = true })
            (l.now_there ∙ deliver_all_lem i (new_waiter cid) env.late refl) in
      let d = waited c.1 env.cancelled w there in
      let f = finish_with d.held o (
        ap reply_of (d.now_there ∙ deliver_all_cancelled i w env.cancelled refl)
        ∙ reply_of-with_reply cid true o) in
      record {
        after = f.after;
        returns = rw (l.returns, c.0, d.returns) f.returns;
        released = f.released;
      }

module _ (env : Environment) {p : Pool Waiter} {rest : List ℕ} {i : ℕ} (h : Held p rest i)
    (cid : ℕ) where
  -- After the acknowledgments that came before the end of the wait left `o` in the waiter.
  await_with :
      (timeout_ms : ℕ) (o : Option Incoming)
      → last_match cid i env.before ≡ o
      → waiter p i ≡ new_waiter cid
      → Ends rest i (outcome_by timeout_ms o (last_match cid i env.late)) (await env p i timeout_ms)
  unfolding await outcome_by
  await_with timeout_ms (some r) e there =
      let b = waited h env.before (new_waiter cid) there in
      let w =
        b.now_there
        ∙ (deliver_all_lem i (new_waiter cid) env.before refl
            ∙ ap (with_reply (new_waiter cid)) e) in
      let f = finish_with b.held (some r) (ap reply_of w) in
      record {
        after = f.after;
        returns = rw (b.returns, there_is b.held, w) f.returns;
        released = f.released;
      }
  await_with timeout_ms none e there =
      let b = waited h env.before (new_waiter cid) there in
      let w =
        b.now_there
        ∙ (deliver_all_lem i (new_waiter cid) env.before refl
            ∙ ap (with_reply (new_waiter cid)) e) in
      elim (Bool-cases (timeout_ms == 0)) [
        | inl z ↦ rw z (record {
          after = with_slots p b.slots;
          returns = rw (b.returns, there_is b.held, w);
          released = λ not_waiting. absurd (not_waiting refl);
        })
        | inr n ↦
            let x = expire_lem env b.held cid w in
            rw n (record {
              after = x.after;
              returns = rw (b.returns, there_is b.held, w) x.returns;
              released = x.released;
            })
      ]

  await_lem :
      (timeout_ms : ℕ)
      → waiter p i ≡ new_waiter cid
      → Ends rest i (expected env cid i timeout_ms) (await env p i timeout_ms)
  unfolding expected
  await_lem timeout_ms = await_with timeout_ms (last_match cid i env.before) refl

-- An outcome is proper for a call with this correlation id and slot if a success carries a reply to
-- this very call, and anything else carries none.
abbrev pub IsProper : (cid i : ℕ) → Outcome → Type 0
IsProper cid i (returned success none) = ⊥
IsProper cid i (returned success (some r)) = matches cid i r ≡ true
IsProper cid i (returned _ none) = Unit
IsProper cid i (returned _ (some r)) = ⊥
IsProper cid i waits_forever = Unit

outcome_of-IsProper :
    (cid i : ℕ) (acks : List Incoming) (o : Option Incoming)
    → last_match cid i acks ≡ o
    → IsProper cid i (outcome_of o)
unfolding outcome_of
outcome_of-IsProper cid i acks none e = tt
outcome_of-IsProper cid i acks (some r) e = last_match-matches cid i acks r e

expected-IsProper : (env : Environment) (cid i t : ℕ) → IsProper cid i (expected env cid i t)
unfolding expected
expected-IsProper env cid i t = by_before (last_match cid i env.before) refl
  where
    by_before :
        (o : Option Incoming)
        → last_match cid i env.before ≡ o
        → IsProper cid i (outcome_by t o (last_match cid i env.late))
    by_before (some r) e = last_match-matches cid i env.before r e
    by_before none e = elim (Bool-cases (t == 0)) [
      | inl z ↦ rw z tt
      | inr n ↦ rw n (outcome_of-IsProper cid i env.late (last_match cid i env.late) refl)
    ]

-- A call from a point where slot `i` is its own, whatever comes of it.
pub record Settles (cid i : ℕ) (rest : List ℕ) (result : Option (Outcome × Pool Waiter))
    : Type 0 where
  pub outcome : Outcome
  pub ends : Ends rest i outcome result
  pub proper : IsProper cid i outcome

IsProper-none :
    (cid i : ℕ) (k : KernReturn) → is_success k ≡ false → IsProper cid i (returned k none)
IsProper-none cid i success e = cc
IsProper-none cid i k e = tt

module _ (env : Environment) {p : Pool Waiter} {rest : List ℕ} {i : ℕ} (h : Held p rest i) (cid : ℕ)
    (dest_port reply_port msg_id : ℕ) (payload : Payload) (size : ℕ) (user : Buffer)
    (timeout_ms : ℕ) where
  -- What the call hands to `protocol_send_message`.
  abbrev pub request : Sent
  request =
      protocol_send_message env.mach_msg env.now dest_port reply_port
        (set_feature msg_id feature_wack) (some (record payload { correlation_slot = pos i })) size
        user timeout_ms

  pub sent_lem :
      is_success request.result ≡ true
      → waiter p i ≡ new_waiter cid
      → Ends rest i
          (expected env cid i timeout_ms)
          (send_and_await env p (pos i) dest_port reply_port msg_id payload size user timeout_ms)
  unfolding send_and_await
  sent_lem e there = rw e (await_lem env h cid timeout_ms there)

  not_sent_lem :
      is_success request.result ≡ false
      → Ends rest i
          (returned request.result none)
          (send_and_await env p (pos i) dest_port reply_port msg_id payload size user timeout_ms)
  unfolding send_and_await
  not_sent_lem e = record {
    after = freed p i;
    returns = rw (e, (release-Held h).0);
    released = λ _. (release-Held h).1;
  }

  pub settles :
      waiter p i ≡ new_waiter cid
      → Settles cid i rest
          (send_and_await env p (pos i) dest_port reply_port msg_id payload size user timeout_ms)
  settles there = elim (Bool-cases (is_success request.result)) [
    | inl e ↦ record {
      outcome = expected env cid i timeout_ms;
      ends = sent_lem e there;
      proper = expected-IsProper env cid i timeout_ms;
    }
    | inr e ↦ record {
      outcome = returned request.result none;
      ends = not_sent_lem e;
      proper = IsProper-none cid i request.result e;
    }
  ]
