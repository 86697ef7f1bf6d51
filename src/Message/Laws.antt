-- ===== src/Message/Laws.antt =====
-- What the block of a user's message does on every path.
use mach_ipc.Base.{
  ℕ, ◌<◌, ◌^◌, ◌≡◌, ◌≢◌, subst, Bool, true, false, Option, none, some, pos, arith, Bool-cases,
  Option-cases, ℤ, negsuc, ◌⊎◌, ◌||◌, ◌==◌, refl, inl, inr,
}
use mathlib.Core.Option.{some-injective}
use mach_ipc.MsgId.{feature_wack, feature_iack, has_feature, user_msg_type}
use mach_ipc.Deadline.{Timespec, user_payload_is_save}
use mach_ipc.Protocol.Types.{ipc_error_timeout, KernReturn, Message, Buffer, sizeof_payload}
use mach_ipc.Protocol.Send.{Sent, protocol_send_ack}
use mach_ipc.Protocol.Send.Laws.{protocol_send_ack_lem}
use mach_ipc.Protocol.Receive.{Received, clean}
use mach_ipc.Message.{
  Callbacks, Origin, Processed, process, acknowledge, process_with_reply, process_without_reply,
  answer_payload, no_data,
}

or_true : (b : Bool) → (b || true) ≡ true
or_true true = refl
or_true false = refl

none-some : {sent : Sent} → none ≡ some sent → ⊥
none-some e = cc

-- Nobody can be told by an acknowledgment of this message.
abbrev pub IsUncorrelated : Received → Type 0
IsUncorrelated m =
    (m.content.correlation_id ≡ 0) ⊎ ((n : ℕ) × (m.content.correlation_slot ≡ negsuc n))

-- An acknowledgment on the wire that answers `m` for the waiter in slot `s`.
abbrev pub Answers : Origin → Received → (s : ℕ) → Sent → Type 0
Answers o m s sent =
    (w : Message) × (sent.message ≡ some w)
    × (w.payload.correlation_id ≡ m.content.correlation_id)
    × (w.payload.correlation_slot ≡ pos s)
    × (w.remote_port ≡ o.port)
    × (has_feature feature_iack w.id ≡ true)
    × (has_feature feature_wack w.id ≡ false)

module _ (mach_msg : Message → KernReturn) (now : Timespec) (callbacks : Callbacks) where
  -- The guarantees of a block, for a given outcome of the two tests.
  abbrev Handles : Origin → Received → (safe wack : Bool) → Processed → Type 0
  Handles o m safe wack p =
      (p.read ≢ none → safe ≡ true)
      × (p.read ≡ none → p.remote_port ≡ m.remote_port)
      × (p.deallocs ≡ clean p.remote_port m)
      × (p.ack ≢ none → wack ≡ true)
      × (wack ≡ true
          → safe ≡ false
          → p.ack ≡ some (acknowledge mach_msg now o m ipc_error_timeout no_data))

  with_reply-Handles :
      (o : Origin) (m : Received) (safe : Bool)
      → Handles o m safe true (process_with_reply mach_msg now callbacks o m safe)
  unfolding process_with_reply
  with_reply-Handles o m false = ground arith
  with_reply-Handles o m true = elim (Option-cases callbacks.on_message_with_reply) [
    | inl e ↦ rw e (ground arith)
    | inr (f, e) ↦ rw e (ground arith)
  ]

  without_reply-Handles :
      (o : Origin) (m : Received) (safe : Bool)
      → Handles o m safe false (process_without_reply mach_msg now callbacks m safe)
  unfolding process_without_reply
  without_reply-Handles o m false = ground arith
  without_reply-Handles o m true = elim (Option-cases callbacks.on_message) [
    | inl e ↦ rw e (ground arith)
    | inr (f, e) ↦ rw e (ground arith)
  ]

  acknowledge-silent :
      (o : Origin) (m : Received) (status : ℤ) (reply : Buffer)
      → IsUncorrelated m
      → (acknowledge mach_msg now o m status reply).message ≡ none
  unfolding acknowledge protocol_send_ack
  acknowledge-silent o m status reply (inl e) = rw e refl
  acknowledge-silent o m status reply (inr (n, e)) =
      rw (e, or_true (m.content.correlation_id == 0)) refl

  with_reply-silent :
      (o : Origin) (m : Received) (safe : Bool) (sent : Sent)
      → IsUncorrelated m
      → (process_with_reply mach_msg now callbacks o m safe).ack ≡ some sent
      → sent.message ≡ none
  unfolding process_with_reply
  with_reply-silent o m false sent u e =
      subst (λ (s : Sent). s.message ≡ none) (some-injective _ sent e)
        (acknowledge-silent o m ipc_error_timeout no_data u)
  with_reply-silent o m true sent u e = elim (Option-cases callbacks.on_message_with_reply) [
    | inl n ↦ absurd (none-some (rw n at e))
    | inr (f, there) ↦
        let a = f m.remote_port (user_msg_type m.id) m.user in
        subst (λ (s : Sent). s.message ≡ none) (some-injective _ sent (rw there at e))
          (acknowledge-silent o m a.status a.reply u)
  ]

  without_reply-silent :
      (m : Received) (safe : Bool) (sent : Sent)
      → (process_without_reply mach_msg now callbacks m safe).ack ≡ some sent
      → ⊥
  unfolding process_without_reply
  without_reply-silent m false sent e = none-some e
  without_reply-silent m true sent e = elim (Option-cases callbacks.on_message) [
    | inl n ↦ none-some (rw n at e)
    | inr (f, there) ↦ none-some (rw there at e)
  ]

  -- A callback gets the user's data only if `user_payload_is_save` accepts the deadline. The payload, the
  -- user's data and the remote port are deallocated once, and only a callback can have changed which
  -- port that is. `protocol_send_ack` is called only for a message that asks for an acknowledgment, and
  -- always if `user_payload_is_save` does not accept its deadline, then with the status of a timeout and
  -- no data; it sends nothing for a correlation id of 0 or a negative slot.
  pub process_lem :
      (o : Origin) (m : Received)
      → let p = process mach_msg now callbacks o m in
        (p.read ≢ none → user_payload_is_save now m.content.user_payload_deadline ≡ true)
        × (p.read ≡ none → p.remote_port ≡ m.remote_port)
        × (p.deallocs ≡ clean p.remote_port m)
        × (p.ack ≢ none → has_feature feature_wack m.id ≡ true)
        × (has_feature feature_wack m.id ≡ true
            → user_payload_is_save now m.content.user_payload_deadline ≡ false
            → p.ack ≡ some (acknowledge mach_msg now o m ipc_error_timeout no_data))
        × (IsUncorrelated m → (sent : Sent) → p.ack ≡ some sent → sent.message ≡ none)
  unfolding process
  process_lem o m = elim (Bool-cases (has_feature feature_wack m.id)) [
    | inl e ↦ rw e (
        let safe = user_payload_is_save now m.content.user_payload_deadline in
        let h = with_reply-Handles o m safe in
        (h.0, h.1, h.2, h.3, h.4, λ u sent x. with_reply-silent o m safe sent u x))
    | inr e ↦ rw e (
        let safe = user_payload_is_save now m.content.user_payload_deadline in
        let h = without_reply-Handles o m safe in
        (h.0, h.1, h.2, h.3, h.4, λ u sent x. absurd (without_reply-silent m safe sent x)))
  ]

  acknowledge-Answers :
      (o : Origin) (m : Received) (s : ℕ) (status : ℤ) (reply : Buffer)
      → m.id < 2 ^ 32
      → m.content.correlation_id ≢ 0
      → m.content.correlation_slot ≡ pos s
      → Answers o m s (acknowledge mach_msg now o m status reply)
  unfolding acknowledge
  acknowledge-Answers o m s status reply h hc hs =
      let (w, sent, cid, slot, st, port, local, iack, wack, type) =
        protocol_send_ack_lem mach_msg now o.port m.id m.content.correlation_id s
          (answer_payload o status) sizeof_payload reply h (omega arith) hc in
      rw hs (w, sent, cid, slot, port, iack, wack)

  with_reply-Answers :
      (o : Origin) (m : Received) (s : ℕ) (safe : Bool) (sent : Sent)
      → m.id < 2 ^ 32
      → m.content.correlation_id ≢ 0
      → m.content.correlation_slot ≡ pos s
      → (process_with_reply mach_msg now callbacks o m safe).ack ≡ some sent
      → Answers o m s sent
  unfolding process_with_reply
  with_reply-Answers o m s false sent h hc hs e =
      subst (Answers o m s) (some-injective _ sent e)
        (acknowledge-Answers o m s ipc_error_timeout no_data h hc hs)
  with_reply-Answers o m s true sent h hc hs e =
      elim (Option-cases callbacks.on_message_with_reply) [
        | inl n ↦ absurd (none-some (rw n at e))
        | inr (f, there) ↦
            let a = f m.remote_port (user_msg_type m.id) m.user in
            subst (Answers o m s) (some-injective _ sent (rw there at e))
              (acknowledge-Answers o m s a.status a.reply h hc hs)
      ]

  -- A message with a correlation id other than 0 and a slot that is not negative: if the block sends an
  -- acknowledgment at all, it goes to the sender's port with this id and slot, marked as an
  -- acknowledgment that asks for none.
  pub process_ack :
      (o : Origin) (m : Received) (s : ℕ) (sent : Sent)
      → m.id < 2 ^ 32
      → m.content.correlation_id ≢ 0
      → m.content.correlation_slot ≡ pos s
      → (process mach_msg now callbacks o m).ack ≡ some sent
      → Answers o m s sent
  unfolding process
  process_ack o m s sent h hc hs e = elim (Bool-cases (has_feature feature_wack m.id)) [
    | inl w ↦
        with_reply-Answers o m s (user_payload_is_save now m.content.user_payload_deadline) sent h
          hc hs (rw w at e)
    | inr w ↦
        let silent =
          without_reply-Handles o m (user_payload_is_save now m.content.user_payload_deadline) in
        absurd (no_ack _ (silent.3) (rw w at e))
  ]
    where
      no_ack : (p : Option Sent) → (p ≢ none → false ≡ true) → p ≡ some sent → ⊥
      no_ack none f e = none-some e
      no_ack (some a) f e = ground arith
